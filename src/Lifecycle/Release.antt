-- ===== src/Lifecycle/Release.antt =====
-- A plugin that ReleasePlugin of host/src/lifecycle_service.cpp released, and a subscription that
-- Unsubscribe ended.
use keel_s.Common.{
  ℕ, ◌==◌, false, not, List, [], ◌∷◌, filter, any, All, ok, ◌≡◌, ◌≢◌, sym, subst, arith, Bool-cases,
  inl, inr, or_false_left, or_false_right,
}
use keel_s.Lifecycle.{
  Subscription, Service, Event, Callbacks, dispatch, release_plugin, deactivate, enable_owned,
  is_current_owner,
}
use keel_s.Lifecycle.Calls.{
  Call, ensures, activates, deactivates, departs, shuts, subscribes, unsubscribes, subscribes_for,
  step, run, flag, Change, adds, keeps, Subscriber, step_changes,
}
use keel_s.Lifecycle.Invariant.{All-filter, All-flag, All-snoc}
use keel_s.Lifecycle.Order.{dispatch-All}

-- No subscription is the plugin's.
abbrev pub Absent : ℕ → List Subscription → Type 0
Absent plugin = All (λ c. c.owner ≢ plugin)

Subscriber-other :
    (plugin : ℕ) (c : Call) (owner : ℕ)
    → subscribes_for plugin c ≡ false
    → Subscriber c owner
    → owner ≢ plugin
Subscriber-other plugin (subscribes host adapter caller spec wanted) owner h s = ground arith
Subscriber-other plugin (ensures adapter event) owner h s = elim s [ ]
Subscriber-other plugin (activates p) owner h s = elim s [ ]
Subscriber-other plugin (deactivates stack p) owner h s = elim s [ ]
Subscriber-other plugin (departs stack p) owner h s = elim s [ ]
Subscriber-other plugin (shuts stack) owner h s = elim s [ ]
Subscriber-other plugin (unsubscribes stack p handle) owner h s = elim s [ ]

Change-Absent :
    (s s' : Service) (c : Call) (plugin : ℕ)
    → subscribes_for plugin c ≡ false
    → Change s s' (Subscriber c)
    → Absent plugin s.subscriptions
    → Absent plugin s'.subscriptions
Change-Absent s s' call plugin h (adds c o e q live live' grown next nseq) a =
    subst (Absent plugin) (sym grown)
      (All-snoc _ s.subscriptions c a (Subscriber-other plugin call c.owner h o))
Change-Absent s s' call plugin h (keeps f keep kept next nseq) a =
    subst (Absent plugin) (sym kept)
      (All-filter _ keep (flag f s.subscriptions) (All-flag _ f s.subscriptions (λ c b p. p) a))

run-Absent :
    (s : Service) (calls : List Call) (plugin : ℕ)
    → any (subscribes_for plugin) calls ≡ false
    → Absent plugin s.subscriptions
    → Absent plugin (run s calls).subscriptions
unfolding run
run-Absent s [] plugin h a = a
run-Absent s (c ∷ calls) plugin h a =
    run-Absent (step s c) calls plugin (or_false_right _ _ h)
      (Change-Absent s (step s c) c plugin (or_false_left _ _ h) (step_changes s c) a)

filter-Absent :
    (plugin : ℕ) (cs : List Subscription) → Absent plugin (filter (λ c. not (c.owner == plugin)) cs)
filter-Absent plugin [] = tt
filter-Absent plugin (c ∷ cs) = elim (Bool-cases (not (c.owner == plugin))) [
  | inl e ↦ rw e (ground arith, filter-Absent plugin cs)
  | inr e ↦ rw e (filter-Absent plugin cs)
]

released-Absent :
    (stack : List Subscription) (s : Service) (plugin : ℕ)
    → (release_plugin stack s plugin).0 ≡ ok
    → Absent plugin (release_plugin stack s plugin).1.subscriptions
unfolding release_plugin deactivate
released-Absent stack s plugin h = elim (Bool-cases (is_current_owner stack plugin)) [
  | inl e ↦ absurd (ground arith)
  | inr e ↦ rw e (filter-Absent plugin (enable_owned plugin false s.subscriptions))
]

-- A plugin that was released is called by no dispatch until it subscribes again, whatever other calls
-- come between, before the dispatch collects its subscriptions or out of its callbacks.
pub release_plugin-dispatch :
    (stack stack' : List Subscription) (s : Service) (plugin : ℕ) (calls deferred : List Call)
    (plugins : Callbacks) (event : Event)
    → (release_plugin stack s plugin).0 ≡ ok
    → any (subscribes_for plugin) calls ≡ false
    → any (subscribes_for plugin) deferred ≡ false
    → Absent plugin
        (dispatch
          (λ e t. run t deferred)
          plugins
          stack'
          (run (release_plugin stack s plugin).1 calls)
          event).1
release_plugin-dispatch stack stack' s plugin calls deferred plugins event h k l =
    dispatch-All _ (λ e t. run t deferred) plugins stack'
      (run (release_plugin stack s plugin).1 calls) event
      (run-Absent (run (release_plugin stack s plugin).1 calls) deferred plugin l (
        run-Absent (release_plugin stack s plugin).1 calls plugin k
          (released-Absent stack s plugin h)))
