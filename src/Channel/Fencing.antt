-- ===== src/Channel/Fencing.antt =====
-- The claims of subscriptions over any sequence of updates.
use xiaowei_agent.Channel.Advance.{Advances, Advances-refl, Advances-trans}
use xiaowei_agent.Channel.Contracts.{
  ProjectionSubscription, ProjectionClaimMutation, ProjectionUpdateResult,
}
use xiaowei_agent.Channel.History.{
  ChannelInv, ChannelChange, updated-ChannelChange, leaves, keeps_token, takes_token,
}
use xiaowei_agent.Channel.Projection.{
  claim_matches, renew_projection_claim, record_initial_projection, schedule_task_recheck,
  schedule_provider_retry, complete_projection, dead_letter_projection,
}
use xiaowei_agent.Channel.Rebinding.{later}
use xiaowei_agent.Channel.Store.{
  ChannelState, Update, updated, updated_all, save, update_subscription, Mutation, claim_of,
  mutated, mutate, renews_claim, records_initial, rechecks_task, retries_provider, completes,
  gives_up,
}
use xiaowei_agent.Dict.{lookup, lookup-insert, insert}
use xiaowei_agent.Lifecycle.Invariant.{issued}
use xiaowei_agent.Prelude.{
  string_eq, nat_eq, ℕ, ◌<◌, String, ◌≡◌, sym, subst, ◌∙◌, ◌≢◌, some, List, [], ◌∷◌, arith, eq_iff,
  Bool-cases, Option-cases, ◌==◌, inl, inr, false, ◌is_some_eq◌, is_some_eq→, Option, none,
}

pub ChannelChange-ChannelInv :
    {s t : ChannelState} → ChannelInv s → ChannelChange s t → ChannelInv t
ChannelChange-ChannelInv v (leaves e) = subst ChannelInv (sym e) v
ChannelChange-ChannelInv {s} v (keeps_token id r w found a token e) =
    let k = w.subscription_id in
    let d = s.projection_subscriptions in
    subst ChannelInv (sym e) (record {
      keyed = λ j x h. ground (arith, lookup-insert k j w d, eq_iff k j, v.keyed j x, h);
      consistent =
          λ j x h. ground (arith, lookup-insert k j w d, v.consistent j x, a.consistent, h);
      issued = λ j x n h i.
          ground (arith, lookup-insert k j w d, v.issued j x n, v.issued id r n found, token, h, i);
    })
ChannelChange-ChannelInv {s} v (takes_token id r w found a token e) =
    let k = w.subscription_id in
    let d = s.projection_subscriptions in
    subst ChannelInv (sym e) (record {
      keyed = λ j x h. ground (arith, lookup-insert k j w d, eq_iff k j, v.keyed j x, h);
      consistent =
          λ j x h. ground (arith, lookup-insert k j w d, v.consistent j x, a.consistent, h);
      issued = λ j x n h i. ground (arith, lookup-insert k j w d, v.issued j x n, token, h, i);
    })

-- one subscription advances, the others stay
insert-Advances :
    (s : ChannelState) (j : String) (o w : ProjectionSubscription)
    → ChannelInv s
    → lookup j s.projection_subscriptions ≡ some o
    → Advances o w
    → (id : String) (r : ProjectionSubscription) → lookup id s.projection_subscriptions ≡ some r
    → (x : ProjectionSubscription) × (lookup id
          (insert w.subscription_id w s.projection_subscriptions)
        ≡ some x)
      × Advances r x
insert-Advances s j o w v found a id r h =
    let put = lookup-insert w.subscription_id id w s.projection_subscriptions in
    let key : w.subscription_id ≡ j = a.subscription_id ∙ v.keyed j o found in
    elim (Bool-cases (w.subscription_id == id)) [
      | inl e ↦
          let at : j ≡ id = ground (arith, e, key, eq_iff w.subscription_id id) in
          let old : o ≡ r = ground (arith, found, at, h) in
          (w, ground (arith, put, e), subst (λ x. Advances x w) old a)
      | inr e ↦ (r, ground (arith, put, e, h), Advances-refl r (v.consistent id r h))
    ]

ChannelChange-Advances :
    {s t : ChannelState}
    → ChannelInv s
    → ChannelChange s t
    → (id : String) (r : ProjectionSubscription) → lookup id s.projection_subscriptions ≡ some r
    → (x : ProjectionSubscription) × (lookup id t.projection_subscriptions ≡ some x) × Advances r x
ChannelChange-Advances v (leaves e) id r h = (
  r,
  subst (λ (y : ChannelState). lookup id y.projection_subscriptions ≡ some r) (sym e) h,
  Advances-refl r (v.consistent id r h),
)
ChannelChange-Advances {s} v (keeps_token j o w found a token e) id r h =
    let (x, at, a') = insert-Advances s j o w v found a id r h in
    (x, subst (λ (y : ChannelState). lookup id y.projection_subscriptions ≡ some x) (sym e) at, a')
ChannelChange-Advances {s} v (takes_token j o w found a token e) id r h =
    let (x, at, a') = insert-Advances s j o w v found a id r h in
    (x, subst (λ (y : ChannelState). lookup id y.projection_subscriptions ≡ some x) (sym e) at, a')

-- Whatever updates are made, every subscription stays and advances: its identity is fixed, it satisfies the
-- validator, a delivered one is never initial again, attempts and failures never go back, and a completed
-- or given up one no longer changes.
pub updated_all-Advances :
    (us : List Update) (s : ChannelState)
    → ChannelInv s
    → (id : String) (r : ProjectionSubscription) → lookup id s.projection_subscriptions ≡ some r
    → (x : ProjectionSubscription) × (lookup id (updated_all us s).projection_subscriptions
        ≡ some x)
      × Advances r x
unfolding updated_all
updated_all-Advances [] s v id r h = (r, h, Advances-refl r (v.consistent id r h))
updated_all-Advances (u ∷ us) s v id r h =
    let change = updated-ChannelChange u s v in
    let (x, found, first) = ChannelChange-Advances v change id r h in
    let (y, later, second) =
      updated_all-Advances us (updated u s) (ChannelChange-ChannelInv v change) id x found in
    (y, later, Advances-trans first second)

-- the subscription under the id does not hold the token, which was issued
record IsSuperseded (id : String) (token : ℕ) (s : ChannelState) : Type 0 where
  issued_before : token < s.next_projection_fencing_token
  not_held :
      (r : ProjectionSubscription)
      → lookup id s.projection_subscriptions ≡ some r
      → r.fencing_token ≢ some token

ChannelChange-IsSuperseded :
    {s t : ChannelState} (id : String) (token : ℕ)
    → ChannelInv s
    → ChannelChange s t
    → IsSuperseded id token s
    → IsSuperseded id token t
ChannelChange-IsSuperseded id token v (leaves e) h = subst (IsSuperseded id token) (sym e) h
ChannelChange-IsSuperseded {s} id token v (keeps_token j r w found a own e) h =
    let key : w.subscription_id ≡ j = a.subscription_id ∙ v.keyed j r found in
    subst (IsSuperseded id token) (sym e) (record {
      issued_before = h.issued_before;
      not_held = λ x p q. ground (
        arith,
        lookup-insert w.subscription_id id w s.projection_subscriptions,
        p,
        q,
        own,
        key,
        eq_iff w.subscription_id id,
        h.not_held x,
        h.not_held r,
        found,
      );
    })
ChannelChange-IsSuperseded {s} id token v (takes_token j r w found a own e) h =
    subst (IsSuperseded id token) (sym e) (record {
      issued_before = omega (arith, h.issued_before);
      not_held = λ x p q. ground (
        arith,
        lookup-insert w.subscription_id id w s.projection_subscriptions,
        p,
        q,
        own,
        h.not_held x,
        h.issued_before,
      );
    })

updated_all-both :
    (us : List Update) (s : ChannelState) (id : String) (token : ℕ)
    → ChannelInv s
    → IsSuperseded id token s
    → ChannelInv (updated_all us s) × IsSuperseded id token (updated_all us s)
unfolding updated_all
updated_all-both [] s id token v h = (v, h)
updated_all-both (u ∷ us) s id token v h =
    let change = updated-ChannelChange u s v in
    updated_all-both us (updated u s) id token (ChannelChange-ChannelInv v change)
      (ChannelChange-IsSuperseded id token v change h)

unheld_claim :
    (r : ProjectionSubscription) (c : ProjectionClaimMutation) (now : ℕ)
    → r.fencing_token ≢ some c.fencing_token
    → claim_matches r c now ≡ false
unfolding claim_matches
unheld_claim r c now h = elim (Bool-cases (◌is_some_eq◌ r.fencing_token c.fencing_token)) [
  | inl e ↦ absurd (h (is_some_eq→ r.fencing_token c.fencing_token e))
  | inr e ↦ ground (arith, e)
]

unheld_mutation :
    (m : Mutation) (now : ℕ) (r : ProjectionSubscription)
    → r.fencing_token ≢ some (claim_of m).fencing_token
    → mutated m now r ≡ record { applied = false; winner = r }
unfolding mutated renew_projection_claim record_initial_projection schedule_task_recheck
    schedule_provider_retry complete_projection dead_letter_projection
unheld_mutation (renews_claim c) now r h = ground (arith, unheld_claim r c.claim now h)
unheld_mutation (records_initial c) now r h = ground (arith, unheld_claim r c.claim now h)
unheld_mutation (rechecks_task c) now r h = ground (arith, unheld_claim r c.claim now h)
unheld_mutation (retries_provider c) now r h = ground (arith, unheld_claim r c.claim now h)
unheld_mutation (completes c) now r h = ground (arith, unheld_claim r c.claim now h)
unheld_mutation (gives_up c) now r h = ground (arith, unheld_claim r c.claim now h)

-- the answer to an update that is refused: nothing applied, and the stored subscription, if there is one
abbrev pub refusal : Option ProjectionSubscription → Option ProjectionUpdateResult
refusal none = none
refusal (some r) = some (record { applied = false; winner = r })

-- Once a subscription no longer holds a token that was issued, whatever updates are made, every update under
-- that token reports that it was not applied, with the stored subscription, and changes nothing.
pub superseded_claim_is_fenced :
    (us : List Update) (s : ChannelState) (m : Mutation) (now : ℕ)
    → ChannelInv s
    → (claim_of m).fencing_token < s.next_projection_fencing_token
    → ((r : ProjectionSubscription)
        → lookup (claim_of m).subscription_id s.projection_subscriptions ≡ some r
        → r.fencing_token ≢ some (claim_of m).fencing_token)
    → let t = updated_all us s in
      mutate m now t ≡ (refusal (lookup (claim_of m).subscription_id t.projection_subscriptions), t)
unfolding mutate update_subscription save
superseded_claim_is_fenced us s m now v issued free =
    let t = updated_all us s in
    let (w, h) =
      updated_all-both us s (claim_of m).subscription_id (claim_of m).fencing_token v
        (record { issued_before = issued; not_held = free }) in
    elim (Option-cases (lookup (claim_of m).subscription_id t.projection_subscriptions)) [
      | inl e ↦ ground (arith, e)
      | inr (r, e) ↦ ground (arith, e, unheld_mutation m now r (h.not_held r e))
    ]
