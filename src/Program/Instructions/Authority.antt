-- ===== src/Program/Instructions/Authority.antt =====
-- instructions/transfer_authority.rs
use solana_floor_program.Base.{not, ◌==◌}
use solana_floor_program.Program.Errors.{
  Result, ok, ◌>>◌, require, no_pending_admin, not_pending_admin,
}
use solana_floor_program.Program.State.{Pubkey, default_key}
use solana_floor_program.Program.Host.{Host}
use solana_floor_program.Program.Accounts.{Chain, require_admin}

module _ (h : Host) where
  unfoldable pub transfer_authority : Pubkey → Pubkey → Chain h → Result (Chain h)
  transfer_authority admin new_admin c = do
    require_admin h admin c
    ok (record c { state = record c.state { pending_admin = new_admin } })

  unfoldable pub accept_authority : Pubkey → Chain h → Result (Chain h)
  accept_authority pending_admin c = do
    require (not (c.state.pending_admin == default_key)) no_pending_admin
    require (c.state.pending_admin == pending_admin) not_pending_admin
    ok (record c {
      state = record c.state { admin = c.state.pending_admin; pending_admin = default_key };
    })
