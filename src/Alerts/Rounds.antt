-- ===== src/Alerts/Rounds.antt =====
-- `deliver_pending`: each delivery reaches a final state after at most three runs.
use mlsc.Base.{
  ℕ, zero, suc, ◌+◌, ◌≤◌, ◌<◌, ◌≡◌, ◌∙◌, refl, sym, subst, Option, none, some, true, false, List,
  [], ◌∷◌, leb, Result, ok, err, arith, All, Bool-cases, inl, inr,
}
use mlsc.Fetch.Webhook.{WebhookRaised, unreachable_raised, passed_through}
use mlsc.Models.Alerts.{
  DeliveryState, delivery_failed, delivered, abandoned, DeliveryError, unreachable,
  rule_missing_or_not_a_webhook, AlertRule, Delivery,
}
use mlsc.Alerts.{
  max_attempts, find_rule, is_webhook, is_due, mark, after_send, attempted, deliver_one, Ended,
  fuel_spent, raised, returned, deliver_each, deliver_pending, deliver_rounds,
}

-- A delivery is never attempted more often than the limit, and is final once it is reached. `left` runs
-- are enough for it.
abbrev pub Within : (left : ℕ) → Delivery → Type 0
Within left d =
    (d.attempts ≤ max_attempts)
    × (is_due d.state ≡ true → d.attempts < max_attempts)
    × (is_due d.state ≡ true → max_attempts ≤ d.attempts + left)

-- What a run leaves as it was: what a delivery is for, and a final delivery whole.
abbrev pub Kept : Delivery → Delivery → Type 0
Kept d d' =
    (d'.id ≡ d.id)
    × (d'.rule_id ≡ d.rule_id)
    × (d'.event_id ≡ d.event_id)
    × (d.attempts ≤ d'.attempts)
    × (is_due d.state ≡ false → d' ≡ d)

abbrev pub Pairwise : (Delivery → Delivery → Type 0) → List Delivery → List Delivery → Type 0
Pairwise R [] [] = Unit
Pairwise R (d ∷ ds) (d' ∷ ds') = R d d' × Pairwise R ds ds'
Pairwise R _ _ = ⊥

Kept-refl : (d : Delivery) → Kept d d
Kept-refl d = (refl, refl, refl, omega arith, λ _. refl)

Kept-trans : (a b c : Delivery) → Kept a b → Kept b c → Kept a c
Kept-trans a b c p q = (
  cc,
  cc,
  cc,
  omega (arith, p.3, q.3),
  λ final.
      (let same = p.4 final in q.4 (subst (λ x. is_due x.state ≡ false) (sym same) final) ∙ same),
)

Pairwise-Kept-refl : (ds : List Delivery) → Pairwise Kept ds ds
Pairwise-Kept-refl [] = tt
Pairwise-Kept-refl (d ∷ rest) = (Kept-refl d, Pairwise-Kept-refl rest)

Pairwise-Kept-trans :
    (xs ys zs : List Delivery) → Pairwise Kept xs ys → Pairwise Kept ys zs → Pairwise Kept xs zs
Pairwise-Kept-trans [] [] [] p q = tt
Pairwise-Kept-trans [] [] (c ∷ zs) p q = absurd q
Pairwise-Kept-trans [] (b ∷ ys) zs p q = absurd p
Pairwise-Kept-trans (a ∷ xs) [] zs p q = absurd p
Pairwise-Kept-trans (a ∷ xs) (b ∷ ys) [] p q = absurd q
Pairwise-Kept-trans (a ∷ xs) (b ∷ ys) (c ∷ zs) p q =
    (Kept-trans a b c p.0 q.0, Pairwise-Kept-trans xs ys zs p.1 q.1)

marked-Within :
    (left : ℕ) (state : DeliveryState) (error : Option DeliveryError) (d : Delivery)
    → Within (suc left) d
    → is_due d.state ≡ true
    → (is_due state ≡ true → d.attempts + 1 < max_attempts)
    → Within left (mark state error d) × Kept d (mark state error d)
marked-Within left state error d h due limit =
    let below : d.attempts < 3 = h.1 due in
    let room : 3 ≤ d.attempts + suc left = h.2 due in
    (
      (omega arith, limit, λ _. omega arith),
      (refl, refl, refl, omega arith, λ final. absurd (ground arith)),
    )

-- A send that returns or raises `WebhookUnreachable`.
abbrev pub IsHandled {κ} : {S : Type κ} → Option (Result WebhookRaised (Unit {0}) × S) → Type 0
IsHandled none = ⊥
IsHandled (some (ok u, s)) = Unit
IsHandled (some (err (unreachable_raised e), s)) = Unit
IsHandled (some (err passed_through, s)) = ⊥

module _ {S : Type 0} (send : List ℕ → ℕ × ℕ → S → Option (Result WebhookRaised (Unit {0}) × S))
    (returns : (target : List ℕ) (payload : ℕ × ℕ) (s : S)
      → IsHandled (send target payload s)) where
  abbrev Progress : (left : ℕ) → Delivery → Ended (ℕ × Delivery) S → Type 0
  Progress left d fuel_spent = ⊥
  Progress left d (raised s) = ⊥
  Progress left d (returned (n, d') s) = Within left d' × Kept d d'

  after_send-Progress :
      (left : ℕ) (d : Delivery) (sent : Option (Result WebhookRaised (Unit {0}) × S))
      → IsHandled sent
      → Within (suc left) d
      → is_due d.state ≡ true
      → Progress left d (after_send d sent)
  after_send-Progress left d none there h due = absurd there
  after_send-Progress left d (some (err passed_through, s)) there h due = absurd there
  after_send-Progress left d (some (ok u, s)) there h due =
      marked-Within left delivered none d h due (λ e. absurd cc)
  after_send-Progress left d (some (err (unreachable_raised e), s)) there h due =
      elim (Bool-cases (leb max_attempts (d.attempts + 1))) [
        | inl last ↦
            rw last (marked-Within left abandoned (some (unreachable e)) d h due (λ x. absurd cc))
        | inr more ↦
            rw more (
              marked-Within left delivery_failed (some (unreachable e)) d h due (λ x. ground arith))
      ]

  attempted-Progress :
      (left : ℕ) (d : Delivery) (rule : Option AlertRule) (s : S)
      → Within (suc left) d
      → is_due d.state ≡ true
      → Progress left d (attempted send d rule s)
  attempted-Progress left d none s h due =
      marked-Within left abandoned (some rule_missing_or_not_a_webhook) d h due (λ e. absurd cc)
  attempted-Progress left d (some rule) s h due = elim (Bool-cases (is_webhook rule.channel)) [
    | inl hook ↦ rw hook (
        after_send-Progress left d (send rule.target (rule.id, d.event_id) s)
          (returns rule.target (rule.id, d.event_id) s) h due)
    | inr other ↦
        rw other (
          marked-Within left abandoned (some rule_missing_or_not_a_webhook) d h due
            (λ e. absurd cc))
  ]

  deliver_one-Progress :
      (left : ℕ) (rules : List AlertRule) (d : Delivery) (s : S)
      → Within (suc left) d
      → Progress left d (deliver_one send rules d s)
  unfolding deliver_one
  deliver_one-Progress left rules d s h = elim (Bool-cases (is_due d.state)) [
    | inl due ↦
        rw (deliver_one, due) (attempted-Progress left d (find_rule d.rule_id rules) s h due)
    | inr final ↦ rw (deliver_one, final) ((h.0, λ due. absurd cc, λ due. absurd cc), Kept-refl d)
  ]

  -- What was left of one row.
  progressed :
      (left : ℕ) (d : Delivery) (o : Ended (ℕ × Delivery) S)
      → Progress left d o
      → (n : ℕ) × (d' : Delivery) × (s' : S) × (o ≡ returned (n, d') s')
        × Within left d'
        × Kept d d'
  progressed left d fuel_spent h = absurd h
  progressed left d (raised s) h = absurd h
  progressed left d (returned (n, d') s') h = (n, d', s', refl, h.0, h.1)

  deliver_each-step :
      (rules : List AlertRule) (d d' : Delivery) (rest rest' : List Delivery) (s s' s'' : S)
      (n total : ℕ)
      → deliver_one send rules d s ≡ returned (n, d') s'
      → deliver_each send rules rest s' ≡ returned (total, rest') s''
      → deliver_each send rules (d ∷ rest) s ≡ returned (n + total, d' ∷ rest') s''
  unfolding deliver_each
  deliver_each-step rules d d' rest rest' s s' s'' n total one others =
      rw (deliver_each, one, others) refl

  deliver_rounds-step :
      (rounds : ℕ) (rules : List AlertRule) (ds mid : List Delivery) (s s' : S) (n : ℕ)
      → deliver_each send rules ds s ≡ returned (n, mid) s'
      → deliver_rounds send (suc rounds) rules ds s ≡ deliver_rounds send rounds rules mid s'
  unfolding deliver_rounds deliver_pending
  deliver_rounds-step rounds rules ds mid s s' n first =
      rw (deliver_rounds, deliver_pending, first) refl

  deliver_each-Progress :
      (left : ℕ) (rules : List AlertRule) (ds : List Delivery) (s : S)
      → All (Within (suc left)) ds
      → (total : ℕ) × (ds' : List Delivery) × (s' : S) × (deliver_each send rules ds s
          ≡ returned (total, ds') s')
        × All (Within left) ds'
        × Pairwise Kept ds ds'
  unfolding deliver_each
  deliver_each-Progress left rules [] s h = (0, [], s, refl, tt, tt)
  deliver_each-Progress left rules (d ∷ rest) s h =
      let (n, d', s', one, within, kept) =
        progressed left d (deliver_one send rules d s) (deliver_one-Progress left rules d s h.0) in
      let (total, ds', s'', others, all_within, all_kept) =
        deliver_each-Progress left rules rest s' h.1 in
      (
        n + total,
        d' ∷ ds',
        s'',
        deliver_each-step rules d d' rest ds' s s' s'' n total one others,
        (within, all_within),
        (kept, all_kept),
      )

  rounds-Progress :
      (rounds : ℕ) (rules : List AlertRule) (ds : List Delivery) (s : S)
      → All (Within rounds) ds
      → (ds' : List Delivery) × (s' : S) × (deliver_rounds send rounds rules ds s ≡ some (ds', s'))
        × All (Within 0) ds'
        × Pairwise Kept ds ds'
  unfolding deliver_rounds
  rounds-Progress zero rules ds s h = (ds, s, refl, h, Pairwise-Kept-refl ds)
  rounds-Progress (suc rounds) rules ds s h =
      let (total, mid, s', first, within, kept) = deliver_each-Progress rounds rules ds s h in
      let (ds', s'', later, final, kept') = rounds-Progress rounds rules mid s' within in
      (
        ds',
        s'',
        deliver_rounds-step rounds rules ds mid s s' total first ∙ later,
        final,
        Pairwise-Kept-trans ds mid ds' kept kept',
      )

-- A delivery that its next run may still attempt, and one that no run touches any more.
abbrev pub Attemptable : Delivery → Type 0
Attemptable d = (d.attempts ≤ max_attempts) × (is_due d.state ≡ true → d.attempts < max_attempts)

abbrev pub Final : Delivery → Type 0
Final d = (is_due d.state ≡ false) × (d.attempts ≤ max_attempts)

Attemptable-Within : (ds : List Delivery) → All Attemptable ds → All (Within 3) ds
Attemptable-Within [] h = tt
Attemptable-Within (d ∷ rest) h = ((h.0.0, h.0.1, λ due. omega arith), Attemptable-Within rest h.1)

Within-Final : (ds : List Delivery) → All (Within 0) ds → All Final ds
Within-Final [] h = tt
Within-Final (d ∷ rest) h = ((ground arith, h.0.0), Within-Final rest h.1)

-- Three runs, with any sender that returns or raises `WebhookUnreachable`.
pub deliver_rounds-Final :
    {S : Type 0} (send : List ℕ → ℕ × ℕ → S → Option (Result WebhookRaised (Unit {0}) × S))
    (rules : List AlertRule) (ds : List Delivery) (s : S)
    → ((target : List ℕ) (payload : ℕ × ℕ) (s : S) → IsHandled (send target payload s))
    → All Attemptable ds
    → (ds' : List Delivery) × (s' : S) × (deliver_rounds send 3 rules ds s ≡ some (ds', s'))
      × All Final ds'
      × Pairwise Kept ds ds'
deliver_rounds-Final send rules ds s returns h =
    let (ds', s', run, within, kept) =
      rounds-Progress send returns 3 rules ds s (Attemptable-Within ds h) in
    (ds', s', run, Within-Final ds' within, kept)
