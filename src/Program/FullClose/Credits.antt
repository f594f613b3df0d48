-- ===== src/Program/FullClose/Credits.antt =====
-- Which records a full settlement credits: each key's records grow by what the key is allocated.
use solana_floor_program.Base.{
  ℕ, zero, suc, ◌+◌, ◌%◌, ◌≡◌, refl, inl, inr, true, ◌&&◌, some, List, [], ◌∷◌, ◌++◌, arith, ltb,
  ◌==◌, if◌then◌else◌, sum_by, sum_by-append, get_elem?, set, All, subst, ◌∙◌, Option-cases,
}
use solana_floor_program.Base.Int.{ℤ}
use solana_floor_program.Program.Errors.{
  Result, ok, err, Ensures, Ensures-bind, Ensures-both, Ensures-if, Ensures-skip,
}
use solana_floor_program.Program.Checked.{add_u64, add_u64_lem}
use solana_floor_program.Program.State.{Pubkey, InvestorRecord, InvestorAlloc}
use solana_floor_program.Program.Pool.{has_investor}
use solana_floor_program.Program.ForcedClose.{is_locked}
use solana_floor_program.Program.FullClose.{
  Closing, closing_start, base_waln, complete_record, complete_one, complete_all, timestamp_as_u64,
  credit_dust, participant_at, award_dust, settle_full,
}
use solana_floor_program.Program.FullClose.Totals.{
  complete_record_lem, CompletesRound, settle_full-CompletesRound,
}

-- What the records of a key have bought, and what the key is allocated.
abbrev pub bought_by : Pubkey → InvestorRecord → ℕ
bought_by k r = if r.investor == k then r.waln_purchased_total else 0

abbrev pub granted_to : Pubkey → InvestorAlloc → ℕ
granted_to k a = if a.investor == k then a.waln_amount else 0

abbrev bought : Pubkey → List InvestorRecord → ℕ
bought k = sum_by (bought_by k)

abbrev granted : Pubkey → List InvestorAlloc → ℕ
granted k = sum_by (granted_to k)

-- The growth of the records is the growth of the allocations.
abbrev Credits : Pubkey → List InvestorRecord → Closing → List InvestorRecord × Closing → Type 0
Credits k rs c p =
    bought k p.0 + granted k c.participants ≡ bought k rs + granted k p.1.participants

granted-push :
    (k : Pubkey) (ps : List InvestorAlloc) (a : InvestorAlloc)
    → granted k (ps ++ (a ∷ [])) ≡ granted k ps + granted_to k a
granted-push k ps a = omega (arith, sum_by-append (granted_to k) ps (a ∷ []))

complete_one-Credits :
    (k : Pubkey) (scale price : ℕ) (r : InvestorRecord) (c : Closing)
    → Ensures (λ q. Credits k (r ∷ []) c (q.0 ∷ [], q.1)) (complete_one scale price r c)
unfolding complete_one
complete_one-Credits k scale price r c =
    let Q : InvestorRecord × Closing → Type 0 = λ q. Credits k (r ∷ []) c (q.0 ∷ [], q.1) in
    Ensures-if Q (is_locked r) _ _
      (λ e. Ensures-skip Q (add_u64 c.participant_count 1) _ λ n.
        Ensures-skip Q (add_u64 c.total_aat_volume r.aat_volume) _ λ v.
          Ensures-skip Q (base_waln scale price r.usdc_locked_current_round) _ λ w.
            Ensures-bind _ Q (complete_record r w) _ (complete_record_lem r w) λ r' hr.
              Ensures-skip Q (add_u64 c.total_usdc_spent r.usdc_locked_current_round) _ λ s.
                Ensures-skip Q (add_u64 c.total_waln_purchased w) _ λ p.
                  let a : InvestorAlloc = record { investor = r.investor; waln_amount = w } in
                  ground (arith, granted-push k c.participants a, hr))
      (λ e. refl)

complete_all-Credits :
    (k : Pubkey) (scale price : ℕ) (rs : List InvestorRecord) (c : Closing)
    → Ensures (Credits k rs c) (complete_all scale price rs c)
unfolding complete_all
complete_all-Credits k scale price [] c = refl
complete_all-Credits k scale price (r ∷ rs) c =
    Ensures-bind (λ q. Credits k (r ∷ []) c (q.0 ∷ [], q.1)) (Credits k (r ∷ rs) c)
      (complete_one scale price r c) _ (complete_one-Credits k scale price r c)
      λ first h.
        Ensures-bind (Credits k rs first.1) (Credits k (r ∷ rs) c)
          (complete_all scale price rs first.1) _ (complete_all-Credits k scale price rs first.1)
          λ rest i. omega (arith, h, i)

-- What holds of the keys of all records holds of all participants.
abbrev KeysHold : (Pubkey → Type 0) → List InvestorRecord → List InvestorAlloc → Type 0
KeysHold P rs ps = All (λ r. P r.investor) rs × All (λ a. P a.investor) ps

complete_one-KeysHold :
    (P : Pubkey → Type 0) (scale price : ℕ) (r : InvestorRecord) (c : Closing)
    → P r.investor
    → All (λ a. P a.investor) c.participants
    → Ensures
        (λ q. (q.0.investor ≡ r.investor) × All (λ a. P a.investor) q.1.participants)
        (complete_one scale price r c)
unfolding complete_one
complete_one-KeysHold P scale price r c here all =
    let Q : InvestorRecord × Closing → Type 0 =
      λ q. (q.0.investor ≡ r.investor) × All (λ a. P a.investor) q.1.participants in
    Ensures-if Q (is_locked r) _ _
      (λ e. Ensures-skip Q (add_u64 c.participant_count 1) _ λ n.
        Ensures-skip Q (add_u64 c.total_aat_volume r.aat_volume) _ λ v.
          Ensures-skip Q (base_waln scale price r.usdc_locked_current_round) _ λ w.
            Ensures-bind _ Q (complete_record r w) _ (complete_record_lem r w) λ r' hr.
              Ensures-skip Q (add_u64 c.total_usdc_spent r.usdc_locked_current_round) _ λ s.
                Ensures-skip Q (add_u64 c.total_waln_purchased w) _
                  λ p. (hr.0, All-push (λ a. P a.investor) c.participants _ all here))
      (λ e. (refl, all))
  where
    All-push :
        (S : InvestorAlloc → Type 0) (ps : List InvestorAlloc) (a : InvestorAlloc)
        → All S ps
        → S a
        → All S (ps ++ (a ∷ []))
    All-push S [] a h k = (k, tt)
    All-push S (b ∷ ps) a h k = (h.0, All-push S ps a h.1 k)

complete_all-KeysHold :
    (P : Pubkey → Type 0) (scale price : ℕ) (rs : List InvestorRecord) (c : Closing)
    → KeysHold P rs c.participants
    → Ensures
        (λ p.
          ((k : Pubkey) → has_investor k p.0 ≡ has_investor k rs)
          × All (λ a. P a.investor) p.1.participants)
        (complete_all scale price rs c)
unfolding complete_all has_investor
complete_all-KeysHold P scale price [] c h = (λ k. refl, h.1)
complete_all-KeysHold P scale price (r ∷ rs) c h =
    Ensures-bind (λ q. (q.0.investor ≡ r.investor) × All (λ a. P a.investor) q.1.participants) _
      (complete_one scale price r c) _ (complete_one-KeysHold P scale price r c h.0.0 h.1)
      λ first k.
        Ensures-bind _ _ (complete_all scale price rs first.1) _
          (complete_all-KeysHold P scale price rs first.1 (h.0.1, k.1))
          λ rest l. (λ key. rw (k.0, l.0 key) refl, l.1)

-- Every record's key is in the pool.
All-has_investor : (rs : List InvestorRecord) → All (λ r. has_investor r.investor rs ≡ true) rs
unfolding has_investor
All-has_investor [] = tt
All-has_investor (r ∷ rs) = (ground arith, later rs (All-has_investor rs))
  where
    later :
        (qs : List InvestorRecord)
        → All (λ s. has_investor s.investor rs ≡ true) qs
        → All (λ s. has_investor s.investor (r ∷ rs) ≡ true) qs
    later [] h = tt
    later (q ∷ qs) h = (ground (arith, h.0), later qs h.1)

-- The dust goes to a record of the winner's.
credit_dust-bought :
    (k winner : Pubkey) (dust : ℕ) (rs : List InvestorRecord)
    → has_investor winner rs ≡ true
    → Ensures
        (λ rs'. bought k rs' ≡ bought k rs + (if winner == k then dust else 0))
        (credit_dust winner dust rs)
unfolding credit_dust has_investor add_u64
credit_dust-bought k winner dust [] there = ground arith
credit_dust-bought k winner dust (r ∷ rs) there =
    ground (arith, there, credit_dust-bought k winner dust rs)

granted-set :
    (k : Pubkey) (ps : List InvestorAlloc) (i n dust : ℕ) {p : InvestorAlloc}
    → get_elem? ps i ≡ some p
    → n ≡ p.waln_amount + dust
    → granted k (set ps i (record p { waln_amount = n }))
      ≡ granted k ps + (if p.investor == k then dust else 0)
granted-set k [] i n dust h e = cc
granted-set k (a ∷ ps) zero n dust {p} h e = ground arith
granted-set k (a ∷ ps) (suc i) n dust h e = omega (arith, granted-set k ps i n dust h e)

All-get_elem? :
    (P : InvestorAlloc → Type 0) (ps : List InvestorAlloc) (i : ℕ) {p : InvestorAlloc}
    → All P ps
    → get_elem? ps i ≡ some p
    → P p
All-get_elem? P [] i h e = cc
All-get_elem? P (a ∷ ps) zero {p} h e = let same : a ≡ p = cc in subst P same h.0
All-get_elem? P (a ∷ ps) (suc i) h e = All-get_elem? P ps i h.1 e

-- For each key, what its records have bought grows by what its participants are allocated.
abbrev pub CreditsAll : List InvestorRecord → List InvestorRecord × Closing → Type 0
CreditsAll rs p =
    (k : Pubkey)
    → sum_by (bought_by k) p.0 ≡ sum_by (bought_by k) rs + sum_by (granted_to k) p.1.participants

award_dust-Credits :
    (k : Pubkey) (dust : ℕ) (now : ℤ) (rs : List InvestorRecord)
    (closed : List InvestorRecord × Closing)
    → Credits k rs closing_start closed
    → All (λ a. has_investor a.investor closed.0 ≡ true) closed.1.participants
    → Ensures (Credits k rs closing_start) (award_dust dust now closed)
unfolding award_dust
award_dust-Credits k dust now rs (qs, c) h there =
    let Q = Credits k rs closing_start in
    let i = timestamp_as_u64 now % c.participant_count in
    Ensures-if Q (ltb 0 dust && ltb 0 c.participant_count) _ _
      (λ e. elim (Option-cases (get_elem? c.participants i)) [
        | inl f ↦ rw (f, participant_at) tt
        | inr (p, f) ↦
            rw (f, participant_at)
              (Ensures-bind _ Q (add_u64 p.waln_amount dust) _ (add_u64_lem p.waln_amount dust)
                λ n hn. Ensures-skip Q (add_u64 c.total_waln_purchased dust) _ λ w.
                  Ensures-bind _ Q (credit_dust p.investor dust qs) _
                    (credit_dust-bought k p.investor dust qs (
                      All-get_elem? (λ a. has_investor a.investor qs ≡ true) c.participants i there
                        f))
                    λ rs' hr. omega (arith, h, hr, granted-set k c.participants i n dust f hn.0))
      ])
      (λ e. h)

settle_full-Credits :
    (k : Pubkey) (scale price dust : ℕ) (now : ℤ) (rs : List InvestorRecord)
    → Ensures (Credits k rs closing_start) (settle_full scale price dust now rs)
unfolding settle_full
settle_full-Credits k scale price dust now rs =
    let P : Pubkey → Type 0 = λ key. has_investor key rs ≡ true in
    Ensures-bind _ (Credits k rs closing_start) (complete_all scale price rs closing_start) _
      (Ensures-both (Credits k rs closing_start) _ (complete_all scale price rs closing_start)
        (complete_all-Credits k scale price rs closing_start)
        (complete_all-KeysHold P scale price rs closing_start (All-has_investor rs, tt)))
      λ closed h.
        award_dust-Credits k dust now rs closed h.0
          (moved closed.0 h.1.0 closed.1.participants h.1.1)
  where
    moved :
        (qs : List InvestorRecord)
        → ((key : Pubkey) → has_investor key qs ≡ has_investor key rs)
        → (ps : List InvestorAlloc) → All (λ a. has_investor a.investor rs ≡ true) ps
        → All (λ a. has_investor a.investor qs ≡ true) ps
    moved qs same [] h = tt
    moved qs same (a ∷ ps) h = (same a.investor ∙ h.0, moved qs same ps h.1)

settle_full-CreditsAll :
    (scale price dust : ℕ) (now : ℤ) (rs : List InvestorRecord)
    → Ensures (CreditsAll rs) (settle_full scale price dust now rs)
settle_full-CreditsAll scale price dust now rs =
    go (settle_full scale price dust now rs) (λ k. settle_full-Credits k scale price dust now rs)
  where
    go :
        (m : Result (List InvestorRecord × Closing))
        → ((k : Pubkey) → Ensures (Credits k rs closing_start) m)
        → Ensures (CreditsAll rs) m
    go (ok p) h = λ k. omega (arith, h k)
    go (err e) h = tt

-- The whole of a full settlement.
abbrev pub SettlesFull : ℕ → ℕ → ℕ → List InvestorRecord → List InvestorRecord × Closing → Type 0
SettlesFull waln_scale floor_price dust rs p =
    CompletesRound waln_scale floor_price dust rs p × CreditsAll rs p

-- A full settlement that goes through: every record keeps its identity, its volume, its unlock time
-- and its deposit, spends its whole lock and has none left, and its bought total grows by what the
-- lock buys (and, for a record that wins the dust, by more). The USDC spent is the sum of the locks,
-- and the allocations add up to the wALN counted as bought: what the locks buy, and the carried dust
-- if anyone takes part. For each key, the bought totals of its records grow by exactly what the key
-- is allocated.
pub settle_full-SettlesFull :
    (waln_scale floor_price dust_pool : ℕ) (now : ℤ) (rs : List InvestorRecord)
    → Ensures
        (SettlesFull waln_scale floor_price dust_pool rs)
        (settle_full waln_scale floor_price dust_pool now rs)
settle_full-SettlesFull scale price dust now rs =
    Ensures-both (CompletesRound scale price dust rs) (CreditsAll rs)
      (settle_full scale price dust now rs) (settle_full-CompletesRound scale price dust now rs)
      (settle_full-CreditsAll scale price dust now rs)
