-- ===== src/Lifecycle/Calls.antt =====
-- The calls on the service of host/src/lifecycle_service.cpp, and the changes that they may make.
-- What plugin code does inside a dispatch is such calls as well.
use keel_s.Common.{
  ℕ, ◌+◌, ◌%◌, ◌==◌, Bool, true, false, ◌||◌, not, List, [], ◌∷◌, ◌++◌, Option, none, some, map,
  filter, any, if◌then◌else◌, u64_mod, ◌≡◌, ◌≢◌, refl, ap, ◌∙◌, arith, Bool-cases, inl, inr, is_ok,
}
use keel_s.Plugins.{Host, plugin_by_handle}
use keel_s.Lifecycle.{
  Subscription, Service, SubscriptionSpec, Adapter, ensure_event, valid_event, enable_owned,
  activate, deactivate, release_plugin, shutdown, subscribe, subscribe_installed, unsubscribe,
  end_subscription, disable, is_current_owner, is_current_callback, accepts, sizeof_spec,
}

pub data Call : Type 0 where
  ensures : Adapter → ℕ → Call
  activates : ℕ → Call
  deactivates : List Subscription → ℕ → Call
  departs : List Subscription → ℕ → Call
  shuts : List Subscription → Call
  subscribes : Host → Adapter → ℕ → Option SubscriptionSpec → Bool → Call
  unsubscribes : List Subscription → ℕ → ℕ → Call

unfoldable pub step : Service → Call → Service
step s (ensures adapter event) = (ensure_event adapter s event).1
step s (activates plugin) = activate s plugin
step s (deactivates stack plugin) = (deactivate stack s plugin).1
step s (departs stack plugin) = (release_plugin stack s plugin).1
step s (shuts stack) = (shutdown stack s).1
step s (subscribes host adapter plugin spec wanted) =
    (subscribe host adapter s plugin spec wanted).1
step s (unsubscribes stack plugin handle) = (unsubscribe stack s plugin handle).1

unfoldable pub run : Service → List Call → Service
run s [] = s
run s (c ∷ calls) = run (step s c) calls

-- The call is a subscription by the plugin.
abbrev pub subscribes_for : ℕ → Call → Bool
subscribes_for plugin (subscribes host adapter caller spec wanted) = caller == plugin
subscribes_for plugin _ = false

-- The flags of the subscriptions are written, and some subscriptions are erased.
abbrev pub flag : (Subscription → Bool) → List Subscription → List Subscription
flag f [] = []
flag f (c ∷ cs) = record c { enabled = f c } ∷ flag f cs

pub data Change (s s' : Service) (owner : ℕ → Type 0) : Type 0 where
  adds :
      (c : Subscription)
      → owner c.owner
      → c.handle ≡ s.next_subscription
      → c.sequence ≡ s.next_sequence
      → s.next_subscription ≢ 0
      → s.next_sequence ≢ 0
      → s'.subscriptions ≡ s.subscriptions ++ c ∷ []
      → s'.next_subscription ≡ (s.next_subscription + 1) % u64_mod
      → s'.next_sequence ≡ (s.next_sequence + 1) % u64_mod
      → Change s s' owner
  keeps :
      (f keep : Subscription → Bool)
      → s'.subscriptions ≡ filter keep (flag f s.subscriptions)
      → s'.next_subscription ≡ s.next_subscription
      → s'.next_sequence ≡ s.next_sequence
      → Change s s' owner

-- A subscription that the call makes is of this plugin.
abbrev pub Subscriber : Call → ℕ → Type 0
Subscriber (subscribes host adapter caller spec wanted) owner = owner ≡ caller
Subscriber _ owner = ⊥

abbrev all_of : Subscription → Bool
all_of c = true

unchanged : (cs : List Subscription) → cs ≡ filter all_of (flag (λ c. c.enabled) cs)
unchanged [] = refl
unchanged (c ∷ cs) = ap (λ rest. c ∷ rest) (unchanged cs)

abbrev owned_flag : ℕ → Bool → Subscription → Bool
owned_flag plugin enabled c = if c.owner == plugin then enabled else c.enabled

enable_owned-flag :
    (plugin : ℕ) (enabled : Bool) (cs : List Subscription)
    → enable_owned plugin enabled cs ≡ flag (owned_flag plugin enabled) cs
enable_owned-flag plugin enabled [] = refl
enable_owned-flag plugin enabled (c ∷ cs) = ground (arith, enable_owned-flag plugin enabled cs)

filter_all : (cs : List Subscription) → cs ≡ filter all_of cs
filter_all [] = refl
filter_all (c ∷ cs) = ap (λ rest. c ∷ rest) (filter_all cs)

disable-flag :
    (handle : ℕ) (cs : List Subscription)
    → disable handle cs ≡ flag (λ c. if c.handle == handle then false else c.enabled) cs
disable-flag handle [] = refl
disable-flag handle (c ∷ cs) = ground (arith, disable-flag handle cs)

map-flag :
    (cs : List Subscription)
    → map {A = Subscription} (λ c. record c { enabled = false }) cs ≡ flag (λ c. false) cs
map-flag [] = refl
map-flag (c ∷ cs) = ap (λ rest. record c { enabled = false } ∷ rest) (map-flag cs)

filter_none : (cs : List Subscription) → [] ≡ filter (λ c. false) cs
filter_none [] = refl
filter_none (c ∷ cs) = filter_none cs

flag_same : (cs : List Subscription) → cs ≡ flag (λ c. c.enabled) cs
flag_same [] = refl
flag_same (c ∷ cs) = ap (λ rest. c ∷ rest) (flag_same cs)

-- A call that leaves the subscriptions and the counters.
abbrev Same : Service → Service → Type 0
Same s s' =
    (s'.subscriptions ≡ s.subscriptions)
    × (s'.next_subscription ≡ s.next_subscription)
    × (s'.next_sequence ≡ s.next_sequence)

module _ {owner : ℕ → Type 0} where
  same-Change : (s s' : Service) → Same s s' → Change s s' owner
  same-Change s s' (e, n, q) = keeps (λ c. c.enabled) all_of (e ∙ unchanged s.subscriptions) n q

  Change-after : (s t u : Service) → Same s t → Change t u owner → Change s u owner
  Change-after s t u (e, n, q) (adds c o h k n' q' grown next nseq) =
      adds c o (h ∙ n) (k ∙ q) (λ z. n' (n ∙ z)) (λ z. q' (q ∙ z))
        (grown ∙ ap (λ cs. cs ++ c ∷ []) e) (next ∙ ap (λ x. (x + 1) % u64_mod) n)
        (nseq ∙ ap (λ x. (x + 1) % u64_mod) q)
  Change-after s t u (e, n, q) (keeps f keep kept next nseq) =
      keeps f keep (kept ∙ ap (λ cs. filter keep (flag f cs)) e) (next ∙ n) (nseq ∙ q)

ensure_event-Same :
    (adapter : Adapter) (s : Service) (event : ℕ) → Same s (ensure_event adapter s event).1
unfolding ensure_event
ensure_event-Same adapter s event = ground arith

subscribe_installed-Change :
    (host : Host) (s : Service) (plugin : ℕ) (spec : SubscriptionSpec)
    → Change s (subscribe_installed host s plugin spec).1 (λ o. o ≡ plugin)
subscribe_installed-Change host s plugin spec =
    elim (Bool-cases (
      s.shutting_down
      || not host.accepting_resources
      || not (accepts (plugin_by_handle host plugin)))) [
        | inl e ↦ rw e (same-Change s s (refl, refl, refl))
        | inr e ↦ elim (Bool-cases (s.next_subscription == 0 || s.next_sequence == 0)) [
          | inl z ↦ rw e (rw z (same-Change s s (refl, refl, refl)))
          | inr z ↦ rw e (rw z (adds _ refl refl refl (ground arith) (ground arith) refl refl refl))
        ]
      ]

subscribe-Change :
    (host : Host) (adapter : Adapter) (s : Service) (plugin : ℕ) (spec : Option SubscriptionSpec)
    (wanted : Bool)
    → Change s (subscribe host adapter s plugin spec wanted).1 (λ o. o ≡ plugin)
unfolding subscribe
subscribe-Change host adapter s plugin none wanted = same-Change s s (refl, refl, refl)
subscribe-Change host adapter s plugin (some spec) wanted =
    let middle = (ensure_event adapter s spec.event).1 in
    let kept = ensure_event-Same adapter s spec.event in
    elim (Bool-cases (
      not (spec.size == sizeof_spec)
      || not wanted
      || not (valid_event spec.event)
      || not (spec.reserved == 0)
      || spec.callback == 0)) [
        | inl e ↦ rw e (same-Change s s (refl, refl, refl))
        | inr e ↦ elim (Bool-cases (not (is_ok (ensure_event adapter s spec.event).0))) [
          | inl z ↦ rw e (rw z (same-Change s middle kept))
          | inr z ↦ rw e (
              rw z
                (Change-after s middle _ kept (subscribe_installed-Change host middle plugin spec)))
        ]
      ]

module _ {owner : ℕ → Type 0} where
  -- The flags of a plugin's subscriptions are written.
  owned-Change :
      (s : Service) (plugin : ℕ) (enabled : Bool)
      → Change s (record s { subscriptions = enable_owned plugin enabled s.subscriptions }) owner
  owned-Change s plugin enabled =
      keeps (owned_flag plugin enabled) all_of
        (enable_owned-flag plugin enabled s.subscriptions ∙ filter_all _) refl refl

  if-Change :
      (b : Bool) (s t u : Service)
      → Change s t owner
      → Change s u owner
      → Change s (if b then t else u) owner
  if-Change true s t u a c = a
  if-Change false s t u a c = c

  if_result-Change {ℓ} :
      {A : Type ℓ} (b : Bool) (s : Service) (x y : A × Service)
      → Change s x.1 owner
      → Change s y.1 owner
      → Change s (if b then x else y).1 owner
  if_result-Change true s x y a c = a
  if_result-Change false s x y a c = c

  activate-Change : (s : Service) (plugin : ℕ) → Change s (activate s plugin) owner
  unfolding activate
  activate-Change s plugin =
      if-Change s.shutting_down s s _ (same-Change s s (refl, refl, refl))
        (owned-Change s plugin true)

  deactivate-Change :
      (stack : List Subscription) (s : Service) (plugin : ℕ)
      → Change s (deactivate stack s plugin).1 owner
  unfolding deactivate
  deactivate-Change stack s plugin = elim (Bool-cases (is_current_owner stack plugin)) [
    | inl e ↦ rw e (same-Change s s (refl, refl, refl))
    | inr e ↦ rw e (owned-Change s plugin false)
  ]

  release_plugin-Change :
      (stack : List Subscription) (s : Service) (plugin : ℕ)
      → Change s (release_plugin stack s plugin).1 owner
  unfolding release_plugin deactivate
  release_plugin-Change stack s plugin = elim (Bool-cases (is_current_owner stack plugin)) [
    | inl e ↦ rw e (same-Change s s (refl, refl, refl))
    | inr e ↦ rw e (
        keeps (owned_flag plugin false) (λ c. not (c.owner == plugin))
          (ap (λ cs. filter {A = Subscription} (λ c. not (c.owner == plugin)) cs)
            (enable_owned-flag plugin false s.subscriptions))
          refl refl)
  ]

  shutdown-Change : (stack : List Subscription) (s : Service) → Change s (shutdown stack s).1 owner
  unfolding shutdown
  shutdown-Change stack s =
      if_result-Change s.shutdown_complete s _ _ (same-Change s s (refl, refl, refl)) (
        if_result-Change (any (λ c. is_current_callback stack c.handle) s.subscriptions) s _ _
          (keeps (λ c. false) all_of (map-flag s.subscriptions ∙ filter_all _) refl refl)
          (keeps (λ c. false) (λ c. false) (filter_none (flag (λ c. false) s.subscriptions)) refl
            refl))

  end_subscription-Change :
      (stack : List Subscription) (s : Service) (plugin handle : ℕ) (found : Option Subscription)
      → Change s (end_subscription stack s plugin handle found).1 owner
  end_subscription-Change stack s plugin handle none = same-Change s s (refl, refl, refl)
  end_subscription-Change stack s plugin handle (some c) =
      if_result-Change (not (c.owner == plugin)) s _ _ (same-Change s s (refl, refl, refl)) (
        if_result-Change (is_current_callback stack handle) s _ _
          (keeps (λ d. if d.handle == handle then false else d.enabled) all_of
            (disable-flag handle s.subscriptions ∙ filter_all _) refl refl)
          (keeps (λ d. d.enabled) (λ d. not (d.handle == handle))
            (ap (filter {A = Subscription} (λ d. not (d.handle == handle)))
              (flag_same s.subscriptions))
            refl refl))

  unsubscribe-Change :
      (stack : List Subscription) (s : Service) (plugin handle : ℕ)
      → Change s (unsubscribe stack s plugin handle).1 owner
  unfolding unsubscribe
  unsubscribe-Change stack s plugin handle = end_subscription-Change stack s plugin handle _

pub step_changes : (s : Service) (c : Call) → Change s (step s c) (Subscriber c)
unfolding step
step_changes s (ensures adapter event) = same-Change s _ (ensure_event-Same adapter s event)
step_changes s (activates plugin) = activate-Change s plugin
step_changes s (deactivates stack plugin) = deactivate-Change stack s plugin
step_changes s (departs stack plugin) = release_plugin-Change stack s plugin
step_changes s (shuts stack) = shutdown-Change stack s
step_changes s (subscribes host adapter plugin spec wanted) =
    subscribe-Change host adapter s plugin spec wanted
step_changes s (unsubscribes stack plugin handle) = unsubscribe-Change stack s plugin handle
