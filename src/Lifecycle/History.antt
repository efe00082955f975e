-- ===== src/Lifecycle/History.antt =====
-- Each task over any history of calls.
use xiaowei_agent.Contracts.Platform.{Platform}
use xiaowei_agent.Contracts.Task.{TaskRecord}
use xiaowei_agent.Dict.{Dict, lookup, insert, lookup-insert}
use xiaowei_agent.Lifecycle.{Change, Reach, keeps, writes, makes, here, calls}
use xiaowei_agent.Lifecycle.Evolution.{
  found_once, Evolves, Evolves-refl, Evolves-trans, Write-Evolves,
}
use xiaowei_agent.Lifecycle.Invariant.{Inv, Reach-Inv}
use xiaowei_agent.Lifecycle.Steps.{after-Change}
use xiaowei_agent.Prelude.{
  string_eq, nat_eq, ℕ, ◌<◌, String, ◌≡◌, sym, subst, ◌⊎◌, inl, inr, none, some, arith, eq_iff,
}
use xiaowei_agent.Store.State.{StoreState}
use xiaowei_agent.Store.Submit.{new_record}

lookup-insert_kept :
    {V : Type 0} (k j : String) (v w : V) (d : Dict String V)
    → lookup j d ≡ some w
    → ((k ≡ j) × (lookup j (insert k v d) ≡ some v)) ⊎ (lookup j (insert k v d) ≡ some w)
lookup-insert_kept k j v w d h = ground (arith, lookup-insert k j v d, eq_iff k j)

-- A record is still there after a change, and has evolved.
Change-Evolves :
    {limit : ℕ} {s t : StoreState}
    → Inv limit s
    → Change limit s t
    → (id : String) (r : TaskRecord) → lookup id s.tasks ≡ some r
    → (r' : TaskRecord) × (lookup id t.tasks ≡ some r') × Evolves r r'
Change-Evolves {s = s} v (keeps tasks token seq) id r h =
    (r, subst (λ d. lookup id d ≡ some r) (sym tasks) h, Evolves-refl r)
Change-Evolves {s = s} v (writes j r₀ w found write tasks seq) id r h =
    elim (lookup-insert_kept j id w r s.tasks h) [
      | inl (e, now) ↦ (
        w,
        subst (λ d. lookup id d ≡ some w) (sym tasks) now,
        subst (λ x. Evolves x w) (found_once s.tasks found h e)
            (Write-Evolves (v.valid j r₀ found) write),
      )
      | inr old ↦ (r, subst (λ d. lookup id d ≡ some r) (sym tasks) old, Evolves-refl r)
    ]
Change-Evolves {s = s} v (makes j context key digest free tasks token seq) id r h =
    elim (lookup-insert_kept j id (new_record j context key digest s.next_created_seq) r s.tasks
      h) [
        | inl (e, now) ↦ absurd (cc (subst (λ i. lookup i s.tasks ≡ none) e free, h))
        | inr old ↦ (r, subst (λ d. lookup id d ≡ some r) (sym tasks) old, Evolves-refl r)
      ]

module _ (p : Platform) (limit : ℕ) where
  -- From a state with the invariant, whatever calls are made, every task stays, and its record evolves:
  -- identity fixed, version, attempt, failures and token never back, the status on a way through the
  -- allowed transitions, a changed status or reason under a new version, a scheduled retry kept with its
  -- command until the next attempt, a terminal record frozen but for the expiry of its lease.
  pub Reach-Evolves :
      {s t : StoreState}
      → 0 < limit
      → Inv limit s
      → Reach p limit s t
      → (id : String) (r : TaskRecord) → lookup id s.tasks ≡ some r
      → (r' : TaskRecord) × (lookup id t.tasks ≡ some r') × Evolves r r'
  Reach-Evolves pos v here id r h = (r, h, Evolves-refl r)
  Reach-Evolves {s} pos v (calls {t = t} {u = u} c path fresh e) id r h =
      let (r₁, found, first) = Reach-Evolves pos v path id r h in
      let w = Reach-Inv p limit pos v path in
      let change = subst (Change limit t) (sym e) (after-Change p limit c t w.keyed fresh) in
      let (r₂, later, second) = Change-Evolves w change id r₁ found in
      (r₂, later, Evolves-trans first second)
