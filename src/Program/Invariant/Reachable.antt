-- ===== src/Program/Invariant/Reachable.antt =====
-- The chain as a state machine: the instructions are its steps, from an initialization on.
use solana_floor_program.Base.{ℕ, ◌≡◌, ◌≢◌}
use solana_floor_program.Base.Int.{ℤ}
use solana_floor_program.Program.Errors.{Result, ok, Ensures, Ensures-weaken, Ensures-ok}
use solana_floor_program.Program.Host.{Host}
use solana_floor_program.Program.Accounts.{Chain}
use solana_floor_program.Program.Instructions.Initialize.{Initialize, initialize}
use solana_floor_program.Program.Dispatch.{
  Call, dispatch, set_floor_price, set_round_size, set_lock_period, set_usdc_withdraw_lock,
  set_investor_usdc_unlock, set_sell_paused, set_frozen, cancel_round, remove_investor, close_round,
  fund_treasury, withdraw_treasury, deposit, withdraw, sell, claim, mint_aat, update_aat,
  transfer_authority, accept_authority, close_round_record,
}
use solana_floor_program.Program.State.{default_key, ProgramState}
use solana_floor_program.Program.Invariant.{IsSoundChain, IsSoundAfter, office}
use solana_floor_program.Program.Pool.Stakes.{Ledger, ledger, ledger-kept}
use solana_floor_program.Program.Invariant.Ledger.{
  Hands, Same, Follows, SoundStep, deposit_usdc-SoundStep, withdraw_usdc-SoundStep,
  remove_investor-SoundStep,
}
use solana_floor_program.Program.Invariant.Refunds.{cancel_round-IsSound}
use solana_floor_program.Program.Invariant.Sales.{sell_waln-IsSound}
use solana_floor_program.Program.Invariant.ForcedEnd.{close_round-IsSound}
use solana_floor_program.Program.Invariant.Settings.{
  Keeps, Keeps-IsSoundAfter, set_floor_price-Keeps, set_round_size-Keeps, set_lock_period-Keeps,
  set_usdc_withdraw_lock-Keeps, set_investor_usdc_unlock-Keeps, set_sell_paused-Keeps,
  set_frozen-Keeps, transfer_authority-Keeps, accept_authority-Keeps, fund_treasury-Keeps,
  withdraw_treasury-Keeps, mint_aat_nft-Keeps, update_aat_volume-Keeps,
}
use solana_floor_program.Program.Invariant.Entries.{
  close_round_record-Keeps, claim_waln-Keeps, initialize-IsSound,
}

-- One step: an instruction that succeeds, or anything that other programs and time do to the rest
-- of the world.
pub data Step (h : Host) : Chain h → Chain h → Type 0 where
  call : {c c' : Chain h} (i : Call) → dispatch h i c ≡ ok c' → Step h c c'
  elsewhere : {c : Chain h} (w : h.World) → Step h c (record c { world = w })

pub data Reachable (h : Host) : Chain h → Type 0 where
  start :
      {c : Chain h} (a : Initialize) (price size : ℕ) (period : ℤ) (w : h.World)
      → initialize h a price size period w ≡ ok c
      → Reachable h c
  step : {c c' : Chain h} → Reachable h c → Step h c c' → Reachable h c'

module _ (h : Host) where
  -- An instruction that keeps all but some of the state's fields, which the invariant does not read.
  set-SoundStep :
      (i : Call) (c : Chain h) (s : ProgramState) (P : Type 0) (m : Result (Chain h))
      → ((l l' : Ledger) → Same l' l → Follows i l l')
      → (P → (s' : ProgramState) → office s' ≡ office s → Hands i c.state s')
      → Ensures (λ c'. P × IsSoundAfter h (record c { state = s }) c') m
      → Ensures (SoundStep h i c) m
  set-SoundStep i c s P m f g k =
      Ensures-weaken (λ c'. P × IsSoundAfter h (record c { state = s }) c') (SoundStep h i c) m k
        λ c' e. (
          e.1.0,
          f (ledger c.pool.investors) (ledger c'.pool.investors)
              (ledger-kept c.pool.investors c'.pool.investors e.1.1),
          g e.0 c'.state e.1.2,
        )

  kept-SoundStep :
      (i : Call) (c : Chain h) (m : Result (Chain h))
      → ((l l' : Ledger) → Same l' l → Follows i l l')
      → ((s s' : ProgramState) → office s' ≡ office s → Hands i s s')
      → Ensures (IsSoundAfter h c) m
      → Ensures (SoundStep h i c) m
  kept-SoundStep i c m f g k =
      set-SoundStep i c c.state Unit m f (λ u. g c.state)
        (Ensures-weaken (IsSoundAfter h c) (λ c'. Unit × IsSoundAfter h c c') m k (λ c' e. (tt, e)))

  Keeps-SoundStep :
      (i : Call) (c : Chain h) (m : Result (Chain h))
      → ((l l' : Ledger) → Same l' l → Follows i l l')
      → ((s s' : ProgramState) → office s' ≡ office s → Hands i s s')
      → Ensures (Keeps h c) m
      → IsSoundChain h c
      → Ensures (SoundStep h i c) m
  Keeps-SoundStep i c m f g k sound =
      kept-SoundStep i c m f g (
        Ensures-weaken (Keeps h c) (IsSoundAfter h c) m k λ c' e. Keeps-IsSoundAfter h c c' e sound)

  Hands-SoundStep :
      (i : Call) (c : Chain h) (s : ProgramState) (P : Type 0) (m : Result (Chain h))
      → ((l l' : Ledger) → Same l' l → Follows i l l')
      → (P → (s' : ProgramState) → office s' ≡ office s → Hands i c.state s')
      → Ensures (λ c'. P × Keeps h (record c { state = s }) c') m
      → IsSoundChain h (record c { state = s })
      → Ensures (SoundStep h i c) m
  Hands-SoundStep i c s P m f g k sound =
      let c1 = record c { state = s } in
      let A : Chain h → Type 0 = λ c'. P × Keeps h c1 c' in
      set-SoundStep i c s P m f g (
        Ensures-weaken A (λ c'. P × IsSoundAfter h c1 c') m k
          (λ c' e. (e.0, Keeps-IsSoundAfter h c1 c' e.1 sound)))

  -- Every instruction that succeeds, whatever its arguments and the accounts passed, takes a sound
  -- chain to a sound one, and does to the ledger of stakes what the ledger's own program says.
  pub dispatch-SoundStep :
      (i : Call) (c : Chain h) → IsSoundChain h c → Ensures (SoundStep h i c) (dispatch h i c)
  unfolding dispatch
  dispatch-SoundStep (set_floor_price admin n) c sound =
      Keeps-SoundStep (set_floor_price admin n) c _ (λ l l' e. e) (λ s s' e. e)
        (set_floor_price-Keeps h admin n c) sound
  dispatch-SoundStep (set_round_size admin n) c sound =
      Keeps-SoundStep (set_round_size admin n) c _ (λ l l' e. e) (λ s s' e. e)
        (set_round_size-Keeps h admin n c) sound
  dispatch-SoundStep (set_lock_period admin n) c sound =
      Keeps-SoundStep (set_lock_period admin n) c _ (λ l l' e. e) (λ s s' e. e)
        (set_lock_period-Keeps h admin n c) sound
  dispatch-SoundStep (set_usdc_withdraw_lock admin n) c sound =
      Keeps-SoundStep (set_usdc_withdraw_lock admin n) c _ (λ l l' e. e) (λ s s' e. e)
        (set_usdc_withdraw_lock-Keeps h admin n c) sound
  dispatch-SoundStep (set_investor_usdc_unlock admin investor n) c sound =
      Keeps-SoundStep (set_investor_usdc_unlock admin investor n) c _ (λ l l' e. e) (λ s s' e. e)
        (set_investor_usdc_unlock-Keeps h admin investor n c) sound
  dispatch-SoundStep (set_sell_paused admin b) c sound =
      Keeps-SoundStep (set_sell_paused admin b) c _ (λ l l' e. e) (λ s s' e. e)
        (set_sell_paused-Keeps h admin b c) sound
  dispatch-SoundStep (set_frozen admin b) c sound =
      Keeps-SoundStep (set_frozen admin b) c _ (λ l l' e. e) (λ s s' e. e)
        (set_frozen-Keeps h admin b c) sound
  dispatch-SoundStep (fund_treasury admin n) c sound =
      Keeps-SoundStep (fund_treasury admin n) c _ (λ l l' e. e) (λ s s' e. e)
        (fund_treasury-Keeps h admin n c) sound
  dispatch-SoundStep (withdraw_treasury admin n) c sound =
      Keeps-SoundStep (withdraw_treasury admin n) c _ (λ l l' e. e) (λ s s' e. e)
        (withdraw_treasury-Keeps h admin n c) sound
  dispatch-SoundStep (claim a n) c sound =
      Keeps-SoundStep (claim a n) c _ (λ l l' e. e) (λ s s' e. e) (claim_waln-Keeps h a n c sound.2)
        sound
  dispatch-SoundStep (mint_aat admin investor account n) c sound =
      Keeps-SoundStep (mint_aat admin investor account n) c _ (λ l l' e. e) (λ s s' e. e)
        (mint_aat_nft-Keeps h admin investor account n c) sound
  dispatch-SoundStep (update_aat admin investor mint n) c sound =
      Keeps-SoundStep (update_aat admin investor mint n) c _ (λ l l' e. e) (λ s s' e. e)
        (update_aat_volume-Keeps h admin investor mint n c) sound
  dispatch-SoundStep (transfer_authority admin new_admin) c sound =
      Hands-SoundStep (transfer_authority admin new_admin) c
        (record c.state { pending_admin = new_admin }) (c.state.admin ≡ admin) _ (λ l l' e. e)
        (λ own s' e. (own, e)) (transfer_authority-Keeps h admin new_admin c) sound
  dispatch-SoundStep (accept_authority key) c sound =
      Hands-SoundStep (accept_authority key) c
        (record c.state { admin = key; pending_admin = default_key })
        ((c.state.pending_admin ≡ key) × (key ≢ default_key)) _ (λ l l' e. e)
        (λ own s' e. (own.0, own.1, e)) (accept_authority-Keeps h key c) sound
  dispatch-SoundStep (close_round_record admin n) c sound =
      Keeps-SoundStep (close_round_record admin n) c _ (λ l l' e. e) (λ s s' e. e)
        (close_round_record-Keeps h admin n c) sound
  dispatch-SoundStep (cancel_round admin) c sound =
      kept-SoundStep (cancel_round admin) c _ (λ l l' e. e) (λ s s' e. e)
        (cancel_round-IsSound h admin c sound)
  dispatch-SoundStep (remove_investor a) c sound = remove_investor-SoundStep h a c sound
  dispatch-SoundStep (close_round admin remaining) c sound =
      kept-SoundStep (close_round admin remaining) c _ (λ l l' e. e) (λ s s' e. e)
        (close_round-IsSound h admin remaining c sound)
  dispatch-SoundStep (deposit a n) c sound = deposit_usdc-SoundStep h a n c sound
  dispatch-SoundStep (withdraw a n) c sound = withdraw_usdc-SoundStep h a n c sound
  dispatch-SoundStep (sell a n) c sound =
      kept-SoundStep (sell a n) c _ (λ l l' e. e) (λ s s' e. e) (sell_waln-IsSound h a n c sound)

  -- In every chain that instructions and other programs can lead to from an initialization, the
  -- accounts are sound: the state's USDC total is what the records hold, deposits and locks together,
  -- and fits in 64 bits; the pool has at most 100 records; either no round runs and no record has a lock,
  -- or one runs and the state's lock total is the sum of the locks; and the total of AAT volumes is
  -- within the limit of 1000000. No investor has two records. Every account of allocations lists its
  -- investors in strict order, and its count of what remains to be claimed is that of its positive
  -- allocations. While no round runs, no wALN counts as sold; while one runs, no more is sold than
  -- its size, it is paid for at the round's price at most, and the round's cap exceeds the state's
  -- lock total by at most 100 units.
  pub Reachable-IsSound : {c : Chain h} → Reachable h c → IsSoundChain h c
  Reachable-IsSound (start {c} a price size period w e) =
      Ensures-ok (IsSoundChain h) (initialize h a price size period w)
        (initialize-IsSound h a price size period w) e
  Reachable-IsSound (step {c} {c'} r (call i e)) =
      (Ensures-ok (SoundStep h i c) (dispatch h i c) (dispatch-SoundStep i c (Reachable-IsSound r))
        e).0
  Reachable-IsSound (step {c} r (elsewhere w)) = Reachable-IsSound r

  -- The ledger of stakes as a program of its own: a deposit adds the amount to the investor's entry, a
  -- withdrawal takes some of it out of the investor's entry, that amount unless it is the largest
  -- 64-bit number, a removal deletes an entry that is there, and all other instructions, rounds and
  -- claims included, leave everyone's stake as it is. Every instruction that succeeds in a chain
  -- reached from an initialization does just that, a stake being what an investor has on deposit,
  -- locked and committed together.
  pub dispatch-Follows :
      (i : Call) (c : Chain h)
      → Reachable h c
      → Ensures
          (λ c'. Follows i (ledger c.pool.investors) (ledger c'.pool.investors))
          (dispatch h i c)
  dispatch-Follows i c r =
      Ensures-weaken (SoundStep h i c)
        (λ c'. Follows i (ledger c.pool.investors) (ledger c'.pool.investors)) (dispatch h i c)
        (dispatch-SoundStep i c (Reachable-IsSound r)) (λ c' e. e.1)

  -- The administrator of a reachable chain is changed in two steps only, and by nobody else: a
  -- transfer, signed by the administrator, names a successor; an acceptance, signed by the named
  -- successor, who is not the zero key, makes that one the administrator and names none. Every other
  -- instruction that succeeds leaves the administrator and the named successor as they are.
  pub dispatch-Hands :
      (i : Call) (c : Chain h)
      → Reachable h c
      → Ensures (λ c'. Hands i c.state c'.state) (dispatch h i c)
  dispatch-Hands i c r =
      Ensures-weaken (SoundStep h i c) (λ c'. Hands i c.state c'.state) (dispatch h i c)
        (dispatch-SoundStep i c (Reachable-IsSound r)) (λ c' e. e.2)
