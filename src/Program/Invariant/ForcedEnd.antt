-- ===== src/Program/Invariant/ForcedEnd.antt =====
-- The forced close of a round keeps the accounts sound.
use solana_floor_program.Base.{inl, List, ◌==◌, ltb, length, sym, subst}
use solana_floor_program.Program.Errors.{
  Ensures, Ensures-bind, Ensures-skip, Ensures-require, Ensures-both,
}
use solana_floor_program.Program.Checked.{add_i64, pow10}
use solana_floor_program.Program.State.{Pubkey, InvestorRecord}
use solana_floor_program.Program.Host.{Host}
use solana_floor_program.Program.Accounts.{Chain, require_admin}
use solana_floor_program.Program.RoundAccounts.{
  check_round_accounts, write_round_locked, write_round_record,
}
use solana_floor_program.Program.Pool.Distinct.{NoRepeat}
use solana_floor_program.Program.Pool.Stakes.{keys-kept}
use solana_floor_program.Program.Allocations.Written.{IsWritable}
use solana_floor_program.Program.Allocations.Settled.{AllGood, settle_partial-IsWritable}
use solana_floor_program.Program.Invariant.Claims.{
  write_round_locked-AllGood, write_round_record-AllGood,
}
use solana_floor_program.Program.ForcedClose.{Settling, settle_partial}
use solana_floor_program.Program.ForcedClose.Exact.{SettledExactly, settle_partial-SettledExactly}
use solana_floor_program.Program.FullClose.{sort_allocs}
use solana_floor_program.Program.Instructions.CloseRound.{end_forced, close_round}
use solana_floor_program.Program.Invariant.{IsSoundChain, IsSoundAfter}
use solana_floor_program.Program.Invariant.Rounds.{Ends, end_forced_lem, settle_partial-IsSound}

module _ (h : Host) where
  pub close_round-IsSound :
      (admin : Pubkey) (remaining : List Pubkey) (c : Chain h)
      → IsSoundChain h c
      → Ensures (IsSoundAfter h c) (close_round h admin remaining c)
  unfolding close_round
  close_round-IsSound admin remaining c sound =
      let Q = IsSoundAfter h c in
      let G : Chain h → Type 0 = λ c'. AllGood c'.round_locked in
      let W : List InvestorRecord × Settling → Type 0 =
        λ p. IsWritable (sort_allocs p.1.participants) in
      let s = c.state in
      let rs = c.pool.investors in
      let now = h.unix_timestamp c.world in
      Ensures-skip Q (require_admin h admin c) _ λ _.
        Ensures-require Q (s.round_started == 1) _ _ λ _.
          Ensures-require Q (ltb 0 s.current_round_waln) _ _ λ _.
            Ensures-skip Q (check_round_accounts h remaining s.round_count) _ λ _.
              Ensures-skip Q (pow10 s.waln_decimals) _ λ waln_scale.
                Ensures-skip Q (add_i64 now s.current_round_lock_period) _ λ unlock.
                  Ensures-bind
                    (λ p. SettledExactly s.current_round_waln s.current_round_usdc_spent rs p × W p)
                    Q
                    (settle_partial waln_scale s.current_round_floor_price s.current_round_waln
                      s.current_round_usdc_spent rs)
                    _
                    (Ensures-both
                      (SettledExactly s.current_round_waln s.current_round_usdc_spent rs) W
                      (settle_partial waln_scale s.current_round_floor_price s.current_round_waln
                        s.current_round_usdc_spent rs)
                      (settle_partial-SettledExactly waln_scale s.current_round_floor_price
                        s.current_round_waln s.current_round_usdc_spent rs)
                      (settle_partial-IsWritable waln_scale s.current_round_floor_price
                        s.current_round_waln s.current_round_usdc_spent rs sound.1))
                    λ settled k.
                      Ensures-bind G Q
                        (write_round_locked h s.round_count unlock
                          (sort_allocs settled.1.participants) c)
                        _
                        (write_round_locked-AllGood h s.round_count unlock
                          (sort_allocs settled.1.participants) c k.1 sound.2)
                        λ c1 g1.
                          Ensures-bind G Q
                            (write_round_record h s.round_count now settled.1.total_waln_purchased
                              settled.1.total_usdc_spent settled.1.total_aat_volume
                              (length (sort_allocs settled.1.participants)) c1)
                            _
                            (write_round_record-AllGood h s.round_count now
                              settled.1.total_waln_purchased settled.1.total_usdc_spent
                              settled.1.total_aat_volume
                              (length (sort_allocs settled.1.participants)) c1 g1)
                            λ c2 g2.
                              Ensures-bind (Ends settled.1.total_usdc_spent s) Q
                                (end_forced settled.1 s) _ (end_forced_lem settled.1 s)
                                λ s' e.
                                  let done =
                                    settle_partial-IsSound s.current_round_waln
                                      s.current_round_usdc_spent s s' rs settled sound.0 k.0 e in
                                  (
                                    (
                                      done.0,
                                      subst NoRepeat (sym (keys-kept rs settled.0 done.1)) sound.1,
                                      g2,
                                      inl (e.1, e.3),
                                    ),
                                    done.1,
                                    e.5,
                                  )
