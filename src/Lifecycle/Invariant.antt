-- ===== src/Lifecycle/Invariant.antt =====
-- What holds of the subscriptions of host/src/lifecycle_service.cpp after any calls.
use keel_s.Common.{
  ℕ, ◌+◌, ◌%◌, ◌<◌, Bool, List, [], ◌∷◌, ◌++◌, filter, All, u64_mod, ◌≡◌, ◌≢◌, ◌⊎◌, sym, subst,
  arith, Bool-cases, inl, inr,
}
use keel_s.Lifecycle.{Subscription, Service, new_service}
use keel_s.Lifecycle.Calls.{Call, step, run, flag, Change, adds, keeps, Subscriber, step_changes}

-- The subscription was made before the others.
abbrev pub Before : Subscription → Subscription → Type 0
Before c d = (c.handle < d.handle) × (c.sequence < d.sequence)

-- Handles and sequences grow along the list.
abbrev pub Growing : List Subscription → Type 0
Growing [] = Unit
Growing (c ∷ cs) = All (Before c) cs × Growing cs

-- The number was given out by a counter, which is 0 when it has given out the last.
abbrev pub Issued : ℕ → ℕ → Type 0
Issued next n = (n ≢ 0) × ((next ≡ 0) ⊎ (n < next))

abbrev pub AllIssued : ℕ → ℕ → List Subscription → Type 0
AllIssued next nseq = All (λ c. Issued next c.handle × Issued nseq c.sequence)

pub record Inv (s : Service) : Type 0 where
  pub growing : Growing s.subscriptions
  pub issued : AllIssued s.next_subscription s.next_sequence s.subscriptions
  pub handles : s.next_subscription < u64_mod
  pub sequences : s.next_sequence < u64_mod

pub All-flag :
    (P : Subscription → Type 0) (f : Subscription → Bool) (cs : List Subscription)
    → ((c : Subscription) (b : Bool) → P c → P (record c { enabled = b }))
    → All P cs
    → All P (flag f cs)
All-flag P f [] h a = tt
All-flag P f (c ∷ cs) h (p, rest) = (h c (f c) p, All-flag P f cs h rest)

pub All-filter :
    (P : Subscription → Type 0) (keep : Subscription → Bool) (cs : List Subscription)
    → All P cs
    → All P (filter keep cs)
All-filter P keep [] a = tt
All-filter P keep (c ∷ cs) (p, rest) = elim (Bool-cases (keep c)) [
  | inl e ↦ rw e (p, All-filter P keep cs rest)
  | inr e ↦ rw e (All-filter P keep cs rest)
]

pub All-snoc :
    (P : Subscription → Type 0) (cs : List Subscription) (c : Subscription)
    → All P cs
    → P c
    → All P (cs ++ c ∷ [])
All-snoc P [] c a p = (p, tt)
All-snoc P (d ∷ cs) c (q, rest) p = (q, All-snoc P cs c rest p)

All-weaken :
    (P Q : Subscription → Type 0) (cs : List Subscription)
    → ((c : Subscription) → P c → Q c)
    → All P cs
    → All Q cs
All-weaken P Q [] h a = tt
All-weaken P Q (c ∷ cs) h (p, rest) = (h c p, All-weaken P Q cs h rest)

Growing-flag : (f : Subscription → Bool) (cs : List Subscription) → Growing cs → Growing (flag f cs)
Growing-flag f [] g = tt
Growing-flag f (c ∷ cs) (a, g) = (All-flag (Before c) f cs (λ d b p. p) a, Growing-flag f cs g)

pub Growing-filter :
    (keep : Subscription → Bool) (cs : List Subscription) → Growing cs → Growing (filter keep cs)
Growing-filter keep [] g = tt
Growing-filter keep (c ∷ cs) (a, g) = elim (Bool-cases (keep c)) [
  | inl e ↦ rw e (All-filter (Before c) keep cs a, Growing-filter keep cs g)
  | inr e ↦ rw e (Growing-filter keep cs g)
]

Growing-snoc :
    (cs : List Subscription) (c : Subscription)
    → Growing cs
    → All (λ d. Before d c) cs
    → Growing (cs ++ c ∷ [])
Growing-snoc [] c g a = (tt, tt)
Growing-snoc (d ∷ cs) c (b, g) (p, a) = (All-snoc (Before d) cs c b p, Growing-snoc cs c g a)

wraps :
    (next n : ℕ)
    → next < u64_mod
    → n < next
    → ((next + 1) % u64_mod ≡ 0) ⊎ (n < (next + 1) % u64_mod)
wraps next n small l = ground arith

-- A number that was issued still is when the counter moves on, and so is the one just given out.
Issued-later :
    (next n : ℕ) → next < u64_mod → next ≢ 0 → Issued next n → Issued ((next + 1) % u64_mod) n
Issued-later next n small live (nz, inl z) = absurd (live z)
Issued-later next n small live (nz, inr l) = (nz, wraps next n small l)

Issued-now : (next : ℕ) → next < u64_mod → next ≢ 0 → Issued ((next + 1) % u64_mod) next
Issued-now next small live = (live, ground arith)

before_next : (next n : ℕ) → next ≢ 0 → Issued next n → n < next
before_next next n live (nz, inl z) = absurd (live z)
before_next next n live (nz, inr l) = l

remainder_small : (n : ℕ) → n % u64_mod < u64_mod
remainder_small n = omega arith

module _ (s s' : Service) (owner : ℕ → Type 0) where
  pub Change-Inv : Change s s' owner → Inv s → Inv s'
  Change-Inv (adds c o h q live live' grown next nseq) v = record {
    growing = subst Growing (sym grown) (
        Growing-snoc s.subscriptions c v.growing (
          All-weaken _ (λ d. Before d c) s.subscriptions
            (λ d (i, j). (
              subst (λ x. d.handle < x) (sym h) (before_next s.next_subscription d.handle live i),
              subst (λ x. d.sequence < x) (sym q) (before_next s.next_sequence d.sequence live' j),
            ))
            v.issued));
    issued = subst (AllIssued s'.next_subscription s'.next_sequence) (sym grown) (
        subst (λ x. AllIssued x s'.next_sequence (s.subscriptions ++ c ∷ [])) (sym next)
          (subst
            (λ x. AllIssued ((s.next_subscription + 1) % u64_mod) x (s.subscriptions ++ c ∷ []))
            (sym nseq)
            (All-snoc _ s.subscriptions c
              (All-weaken _ _ s.subscriptions
                (λ d (i, j). (
                  Issued-later s.next_subscription d.handle v.handles live i,
                  Issued-later s.next_sequence d.sequence v.sequences live' j,
                ))
                v.issued)
              (
                subst (Issued ((s.next_subscription + 1) % u64_mod)) (sym h)
                    (Issued-now s.next_subscription v.handles live),
                subst (Issued ((s.next_sequence + 1) % u64_mod)) (sym q)
                    (Issued-now s.next_sequence v.sequences live'),
              ))));
    handles = subst (λ x. x < u64_mod) (sym next) (remainder_small (s.next_subscription + 1));
    sequences = subst (λ x. x < u64_mod) (sym nseq) (remainder_small (s.next_sequence + 1));
  }
  Change-Inv (keeps f keep kept next nseq) v = record {
    growing =
        subst Growing (sym kept)
          (Growing-filter keep (flag f s.subscriptions) (Growing-flag f s.subscriptions v.growing));
    issued = subst (AllIssued s'.next_subscription s'.next_sequence) (sym kept) (
        subst (λ x. AllIssued x s'.next_sequence (filter keep (flag f s.subscriptions))) (sym next)
          (subst (λ x. AllIssued s.next_subscription x (filter keep (flag f s.subscriptions)))
            (sym nseq)
            (All-filter _ keep (flag f s.subscriptions)
              (All-flag _ f s.subscriptions (λ c b p. p) v.issued))));
    handles = subst (λ x. x < u64_mod) (sym next) v.handles;
    sequences = subst (λ x. x < u64_mod) (sym nseq) v.sequences;
  }

new-Inv : Inv new_service
new-Inv = record { growing = tt; issued = tt; handles = omega arith; sequences = omega arith }

pub run-Inv : (s : Service) (calls : List Call) → Inv s → Inv (run s calls)
unfolding run
run-Inv s [] v = v
run-Inv s (c ∷ calls) v =
    run-Inv (step s c) calls (Change-Inv s (step s c) (Subscriber c) (step_changes s c) v)

-- After any calls on a new service, plugin code in the callbacks included, the handles and the
-- sequences of the subscriptions grow in the order in which they were made, so that no two are equal,
-- and each was given out by its counter and is not null.
pub run-new_service-Inv : (calls : List Call) → Inv (run new_service calls)
run-new_service-Inv calls = run-Inv new_service calls new-Inv
