-- ===== src/Program/RoundStart/Selection.antt =====
-- The selection of a round's investors: it ends, and what it returns is a fixed point.
use solana_floor_program.Base.{
  ℕ, zero, suc, ◌+◌, ◌*◌, ◌/◌, ◌≤◌, ◌<◌, ◌≡◌, refl, ◌⊎◌, inl, inr, Bool, true, false, List, [], ◌∷◌,
  arith, if◌then◌else◌, ltb, ap, ◌∙◌, sym, subst, sum_by, All, Bool-cases,
}
use solana_floor_program.Program.Errors.{ok, err, Ensures, Ensures-bind}
use solana_floor_program.Program.Checked.{add_u64, mul_u128, div}
use solana_floor_program.Program.State.{InvestorRecord}
use solana_floor_program.Program.RoundStart.{
  Candidate, entries, sum_volumes, required_lock, review, review_all, select,
}

-- The pro-rata share of the round's cap.
abbrev pub share : ℕ → ℕ → InvestorRecord → ℕ
share cap_usdc total r = cap_usdc * r.aat_volume / total

abbrev pub eligible_volume : Candidate → ℕ
eligible_volume c = if c.eligible then c.entry.aat_volume else 0

abbrev pub one_if_eligible : Candidate → ℕ
one_if_eligible c = if c.eligible then 1 else 0

abbrev pub eligible_count : List Candidate → ℕ
eligible_count = sum_by one_if_eligible

-- An eligible candidate has a share, and its deposit covers it.
abbrev pub IsFunded : ℕ → ℕ → Candidate → Type 0
IsFunded cap_usdc total c =
    c.eligible ≡ true
    → (0 < share cap_usdc total c.entry) × (share cap_usdc total c.entry ≤ c.entry.usdc_deposited)

-- What holds of the records of the eligible candidates.
abbrev pub AllEligible : (InvestorRecord → Type 0) → List Candidate → Type 0
AllEligible P = All (λ c. c.eligible ≡ true → P c.entry)

pub sum_volumes_lem :
    (cs : List Candidate) (t : ℕ)
    → Ensures (λ t'. t' ≡ t + sum_by eligible_volume cs) (sum_volumes cs t)
unfolding sum_volumes add_u64
sum_volumes_lem [] t = omega arith
sum_volumes_lem (c ∷ cs) t =
    ground (arith, sum_volumes_lem cs (t + c.entry.aat_volume), sum_volumes_lem cs t)

pub required_lock_lem :
    (cap_usdc total : ℕ) (r : InvestorRecord)
    → Ensures (λ n. (n ≡ share cap_usdc total r) × (0 < total)) (required_lock cap_usdc total r)
unfolding required_lock mul_u128 div
required_lock_lem _ total r = ground arith

-- What one review does.
abbrev pub Reviewed : ℕ → ℕ → Candidate → Bool → Candidate × Bool → Type 0
Reviewed cap_usdc total c changed p =
    (p.0.entry ≡ c.entry)
    × (p.0.eligible ≡ true → c.eligible ≡ true)
    × (p.1 ≡ false → (p.0 ≡ c) × (changed ≡ false) × IsFunded cap_usdc total c)
    × (p.1 ≡ true → (changed ≡ true) ⊎ (suc (one_if_eligible p.0) ≤ one_if_eligible c))

review-Reviewed :
    (cap_usdc total : ℕ) (c : Candidate) (changed : Bool)
    → Ensures (Reviewed cap_usdc total c changed) (review cap_usdc total c changed)
unfolding review
review-Reviewed cap_usdc total c changed = ground (arith, required_lock_lem cap_usdc total c.entry)

-- What a round of reviews does to all candidates.
abbrev pub ReviewedAll : ℕ → ℕ → List Candidate → Bool → List Candidate × Bool → Type 0
ReviewedAll cap_usdc total cs changed p =
    (entries p.0 ≡ entries cs)
    × (p.1 ≡ false → (p.0 ≡ cs) × (changed ≡ false) × All (IsFunded cap_usdc total) cs)
    × (p.1 ≡ true → (changed ≡ true) ⊎ (suc (eligible_count p.0) ≤ eligible_count cs))
    × (eligible_count p.0 ≤ eligible_count cs)

pub review_all-ReviewedAll :
    (cap_usdc total : ℕ) (cs : List Candidate) (changed : Bool)
    → Ensures (ReviewedAll cap_usdc total cs changed) (review_all cap_usdc total cs changed)
unfolding review_all
review_all-ReviewedAll cap_usdc total [] changed =
    (refl, λ h. (refl, h, tt), λ h. inl h, omega arith)
review_all-ReviewedAll cap_usdc total (c ∷ cs) changed =
    Ensures-bind (Reviewed cap_usdc total c changed) _ (review cap_usdc total c changed) _
      (review-Reviewed cap_usdc total c changed)
      λ first h.
        Ensures-bind (ReviewedAll cap_usdc total cs first.1) _
          (review_all cap_usdc total cs first.1) _
          (review_all-ReviewedAll cap_usdc total cs first.1) λ rest k. ground arith

-- A review keeps what holds of the entries of the eligible candidates.
review_all-All :
    (P : InvestorRecord → Type 0) (cap_usdc total : ℕ) (cs : List Candidate) (changed : Bool)
    → AllEligible P cs
    → Ensures (λ p. AllEligible P p.0) (review_all cap_usdc total cs changed)
unfolding review_all
review_all-All P cap_usdc total [] changed h = tt
review_all-All P cap_usdc total (c ∷ cs) changed h =
    Ensures-bind (Reviewed cap_usdc total c changed) _ (review cap_usdc total c changed) _
      (review-Reviewed cap_usdc total c changed)
      λ first k.
        Ensures-bind (λ p. AllEligible P p.0) _ (review_all cap_usdc total cs first.1) _
          (review_all-All P cap_usdc total cs first.1 h.1)
          λ rest l. (λ e. subst P (sym k.0) (h.0 (k.1 e)), l)

-- What the selection returns: the same records, all that are eligible funded for their total.
abbrev pub Selected : ℕ → List Candidate → List Candidate × ℕ → Type 0
Selected cap_usdc cs p =
    (entries p.0 ≡ entries cs)
    × (p.1 ≡ sum_by eligible_volume p.0)
    × (0 < p.1)
    × All (IsFunded cap_usdc p.1) p.0

pub select-Selected :
    (fuel cap_usdc : ℕ) (cs : List Candidate)
    → Ensures (Selected cap_usdc cs) (select fuel cap_usdc cs)
unfolding select
select-Selected zero cap_usdc cs = tt
select-Selected (suc fuel) cap_usdc cs =
    Ensures-bind _ _ (sum_volumes cs 0) _ (sum_volumes_lem cs 0) λ total t.
      elim (Bool-cases (ltb 0 total)) [
        | inr e ↦ rw e tt
        | inl e ↦ rw e (
            Ensures-bind (ReviewedAll cap_usdc total cs false) _
              (review_all cap_usdc total cs false) _
              (review_all-ReviewedAll cap_usdc total cs false)
              λ reviewed r. finish total t e reviewed r (select-Selected fuel cap_usdc reviewed.0))
      ]
  where
    finish :
        (total : ℕ)
        → total ≡ 0 + sum_by eligible_volume cs
        → ltb 0 total ≡ true
        → (reviewed : List Candidate × Bool) → ReviewedAll cap_usdc total cs false reviewed
        → Ensures (Selected cap_usdc reviewed.0) (select fuel cap_usdc reviewed.0)
        → Ensures (Selected cap_usdc cs) (elim reviewed.1 [
          | true ↦ select fuel cap_usdc reviewed.0
          | false ↦ ok (reviewed.0, total)
        ])
    finish total t e (ds, true) r ih =
        elim (select fuel cap_usdc ds)
            as (λ m. Ensures (Selected cap_usdc ds) m → Ensures (Selected cap_usdc cs) m) [
              | ok p ↦ λ h. (h.0 ∙ r.0, h.1, h.2, h.3)
              | err x ↦ λ h. tt
            ]
          ih
    finish total t e (ds, false) r ih = (
      ap entries (r.1 refl).0,
      rw (r.1 refl).0 (omega arith),
      ground arith,
      rw ((r.1 refl).0) (r.1 refl).2,
    )

pub select-All :
    (P : InvestorRecord → Type 0) (fuel cap_usdc : ℕ) (cs : List Candidate)
    → AllEligible P cs
    → Ensures (λ p. AllEligible P p.0) (select fuel cap_usdc cs)
unfolding select
select-All P zero cap_usdc cs h = tt
select-All P (suc fuel) cap_usdc cs h =
    Ensures-bind _ _ (sum_volumes cs 0) _ (sum_volumes_lem cs 0) λ total t.
      elim (Bool-cases (ltb 0 total)) [
        | inr e ↦ rw e tt
        | inl e ↦ rw e (
            Ensures-bind (λ p. AllEligible P p.0) (λ p. AllEligible P p.0)
              (review_all cap_usdc total cs false) _ (review_all-All P cap_usdc total cs false h)
              λ reviewed r. finish reviewed total r (select-All P fuel cap_usdc reviewed.0 r))
      ]
  where
    finish :
        (reviewed : List Candidate × Bool) (total : ℕ)
        → AllEligible P reviewed.0
        → Ensures (λ p. AllEligible P p.0) (select fuel cap_usdc reviewed.0)
        → Ensures {A = List Candidate × ℕ}
            (λ p. AllEligible P p.0)
            (elim reviewed.1 [
              | true ↦ select fuel cap_usdc reviewed.0
              | false ↦ ok (reviewed.0, total)
            ])
    finish (ds, true) total r ih = ih
    finish (ds, false) total r ih = r
