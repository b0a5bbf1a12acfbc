-- ===== src/Lifecycle/Order.antt =====
-- Whom Dispatch of host/src/lifecycle_service.cpp calls, and in which order.
use keel_s.Common.{
  ℕ, ◌<◌, ◌≤◌, ◌==◌, ltb, Bool, true, false, ◌&&◌, not, List, [], ◌∷◌, filter, any, All, length,
  if◌then◌else◌, ◌≡◌, refl, ap, ◌∙◌, arith, Bool-cases, inl, inr, or_right,
}
use keel_s.Lifecycle.{
  Subscription, Service, Event, Callbacks, dispatch, dispatch_loop, sort_by_sequence,
  insert_by_sequence, interested, still_enabled, stack_capacity, valid_dispatch,
}
use keel_s.Lifecycle.Invariant.{Inv, Growing, Before, All-filter, Growing-filter}

if_result {ℓ} :
    {A : Type ℓ} (P : A → Type 0) (b : Bool) (x y : A) → P x → P y → P (if b then x else y)
if_result P true x y p q = p
if_result P false x y p q = q

-- No later subscription comes before an earlier one.
abbrev pub Sorted : List Subscription → Type 0
Sorted [] = Unit
Sorted (c ∷ cs) = All (λ d. c.sequence ≤ d.sequence) cs × Sorted cs

insert-All :
    (P : Subscription → Type 0) (c : Subscription) (cs : List Subscription)
    → P c
    → All P cs
    → All P (insert_by_sequence c cs)
insert-All P c [] h a = (h, tt)
insert-All P c (d ∷ cs) h (p, a) =
    if_result (All P) (ltb d.sequence c.sequence) _ _ (p, insert-All P c cs h a) (h, (p, a))

sort-All :
    (P : Subscription → Type 0) (cs : List Subscription) → All P cs → All P (sort_by_sequence cs)
sort-All P [] a = tt
sort-All P (c ∷ cs) (p, a) = insert-All P c (sort_by_sequence cs) p (sort-All P cs a)

All-trans :
    (m n : ℕ) (cs : List Subscription)
    → m ≤ n
    → All (λ d. n ≤ d.sequence) cs
    → All (λ d. m ≤ d.sequence) cs
All-trans m n [] h a = tt
All-trans m n (c ∷ cs) h (p, a) = (omega arith, All-trans m n cs h a)

insert-Sorted :
    (c : Subscription) (cs : List Subscription) → Sorted cs → Sorted (insert_by_sequence c cs)
insert-Sorted c [] s = (tt, tt)
insert-Sorted c (d ∷ cs) (a, s) = elim (Bool-cases (ltb d.sequence c.sequence)) [
  | inl e ↦
      rw e (insert-All (λ x. d.sequence ≤ x.sequence) c cs (ground arith) a, insert-Sorted c cs s)
  | inr e ↦
      let le : c.sequence ≤ d.sequence = ground arith in
      rw e ((le, All-trans c.sequence d.sequence cs le a), (a, s))
]

sort-Sorted : (cs : List Subscription) → Sorted (sort_by_sequence cs)
sort-Sorted [] = tt
sort-Sorted (c ∷ cs) = insert-Sorted c (sort_by_sequence cs) (sort-Sorted cs)

-- What the loop calls keeps a property of the list that it walks.
loop-All :
    (P : Subscription → Type 0) (plugins : Callbacks) (stack cs : List Subscription) (s : Service)
    → All P cs
    → All P (dispatch_loop plugins stack cs s).1
unfolding dispatch_loop
loop-All P plugins stack [] s a = tt
loop-All P plugins stack (c ∷ cs) s (p, a) =
    elim (Bool-cases (still_enabled s c.handle && not (length stack == stack_capacity))) [
      | inl e ↦ rw e (p, loop-All P plugins stack cs (plugins (c ∷ stack) s c) a)
      | inr e ↦ rw e (loop-All P plugins stack cs s a)
    ]

loop-Sorted :
    (plugins : Callbacks) (stack cs : List Subscription) (s : Service)
    → Sorted cs
    → Sorted (dispatch_loop plugins stack cs s).1
unfolding dispatch_loop
loop-Sorted plugins stack [] s a = tt
loop-Sorted plugins stack (c ∷ cs) s (p, a) =
    elim (Bool-cases (still_enabled s c.handle && not (length stack == stack_capacity))) [
      | inl e ↦ rw e (
        loop-All _ plugins stack cs (plugins (c ∷ stack) s c) p,
        loop-Sorted plugins stack cs (plugins (c ∷ stack) s c) a,
      )
      | inr e ↦ rw e (loop-Sorted plugins stack cs s a)
    ]

-- Whatever the callbacks do to the service while they run, a dispatch calls the subscriptions in the
-- order of their sequence numbers.
pub dispatch-Sorted :
    (before : Event → Service → Service) (plugins : Callbacks) (stack : List Subscription)
    (s : Service) (event : Event)
    → Sorted (dispatch before plugins stack s event).1
unfolding dispatch
dispatch-Sorted before plugins stack s event =
    if_result (λ (r : Service × List Subscription). Sorted r.1) (not (valid_dispatch event)) _ _ tt
      (if_result (λ (r : Service × List Subscription). Sorted r.1) (before event s).shutting_down _
        _ tt
        (loop-Sorted plugins stack _ (before event s)
          (sort-Sorted (filter (interested event.kind) (before event s).subscriptions))))

-- A dispatch calls no subscription that was not collected.
pub dispatch-All :
    (P : Subscription → Type 0) (before : Event → Service → Service) (plugins : Callbacks)
    (stack : List Subscription) (s : Service) (event : Event)
    → All P (before event s).subscriptions
    → All P (dispatch before plugins stack s event).1
unfolding dispatch
dispatch-All P before plugins stack s event a =
    if_result (λ (r : Service × List Subscription). All P r.1) (not (valid_dispatch event)) _ _ tt
      (if_result (λ (r : Service × List Subscription). All P r.1) (before event s).shutting_down _ _
        tt
        (loop-All P plugins stack _ (before event s)
          (sort-All P _ (All-filter P (interested event.kind) (before event s).subscriptions a))))

-- In a growing list nothing is to be sorted.
insert_least :
    (c : Subscription) (cs : List Subscription)
    → All (Before c) cs
    → insert_by_sequence c cs ≡ c ∷ cs
insert_least c [] a = refl
insert_least c (d ∷ cs) ((h, q), a) = ground arith

sort-Growing : (cs : List Subscription) → Growing cs → sort_by_sequence cs ≡ cs
sort-Growing [] g = refl
sort-Growing (c ∷ cs) (a, g) = ap (insert_by_sequence c) (sort-Growing cs g) ∙ insert_least c cs a

abbrev enabled_in : ℕ → List Subscription → Bool
enabled_in handle cs = any (λ d. d.handle == handle && d.enabled) cs

collected_enabled :
    (kind : ℕ) (cs everyone : List Subscription)
    → ((h : ℕ) → enabled_in h cs ≡ true → enabled_in h everyone ≡ true)
    → All (λ c. enabled_in c.handle everyone ≡ true) (filter (interested kind) cs)
collected_enabled kind [] everyone w = tt
collected_enabled kind (c ∷ cs) everyone w =
    let rest = collected_enabled kind cs everyone (λ h e. w h (or_right _ _ e)) in
    elim (Bool-cases (interested kind c)) [
      | inl e ↦ rw e (w c.handle (ground arith), rest)
      | inr e ↦ rw e rest
    ]

loop_calls-All :
    (plugins : Callbacks) (stack cs : List Subscription) (s : Service)
    → ((st : List Subscription) (t : Service) (c : Subscription) → plugins st t c ≡ t)
    → (length stack == stack_capacity) ≡ false
    → All (λ c. enabled_in c.handle s.subscriptions ≡ true) cs
    → dispatch_loop plugins stack cs s ≡ (s, cs)
unfolding dispatch_loop
loop_calls-All plugins stack [] s quiet room a = refl
loop_calls-All plugins stack (c ∷ cs) s quiet room (p, a) =
    let rest = loop_calls-All plugins stack cs s quiet room a in
    rw p (
      rw room (
        ap (λ t. ((dispatch_loop plugins stack cs t).0, c ∷ (dispatch_loop plugins stack cs t).1))
          (quiet (c ∷ stack) s c)
        ∙ ap (λ r. (r.0, c ∷ r.1)) rest))

taken {ℓ} :
    {A : Type ℓ} (a b : Bool) (x y z : A)
    → a ≡ false
    → b ≡ false
    → (if a then x else if b then y else z) ≡ z
taken a b x y z h k = rw h (rw k refl)

-- In a well-formed service that is not shutting down, when the callbacks and the work before them leave
-- the service as it is and the stack has room, a dispatch of a well-formed event calls the enabled
-- subscriptions of its kind, each once, in the order in which they were made, and leaves the service as
-- it was.
pub dispatch_quiet :
    (plugins : Callbacks) (stack : List Subscription) (s : Service) (event : Event)
    → Inv s
    → valid_dispatch event ≡ true
    → s.shutting_down ≡ false
    → length stack < stack_capacity
    → ((st : List Subscription) (t : Service) (c : Subscription) → plugins st t c ≡ t)
    → dispatch (λ e t. t) plugins stack s event
      ≡ (s, filter (interested event.kind) s.subscriptions)
unfolding dispatch
dispatch_quiet plugins stack s event v well up room quiet =
    let collected = filter (interested event.kind) s.subscriptions in
    let sorted =
      sort-Growing collected (Growing-filter (interested event.kind) s.subscriptions v.growing) in
    let all_enabled = collected_enabled event.kind s.subscriptions s.subscriptions (λ h e. e) in
    let called : dispatch_loop plugins stack (sort_by_sequence collected) s ≡ (s, collected) =
      ap (λ cs. dispatch_loop plugins stack cs s) sorted
      ∙ loop_calls-All plugins stack collected s quiet (ground arith) all_enabled in
    taken (not (valid_dispatch event)) s.shutting_down _ _ _ (ground arith) up ∙ called
