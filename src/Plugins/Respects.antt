-- ===== src/Plugins/Respects.antt =====
-- What the code that the plugin manager (host/src/plugin_manager.cpp) calls may do to the table of plugins.
-- Plugin code may pause and resume other plugins from every callback, through KeelPluginsApi of
-- sdk/include/keels2/plugins.h, and so may whoever hears of an event; the plugin manager refuses a plugin
-- that is in a transition, or that still loads.
use keel_s.Common.{
  ℕ, ◌==◌, Bool, true, false, List, [], ◌∷◌, some, All, if◌then◌else◌, is_ok, ◌≡◌, ◌≢◌, ◌⊎◌, refl,
  sym, ap, ◌∙◌, arith, Bool-cases, inl, inr, ==_iff, find-found,
}
use keel_s.Plugins.{Plugin, PluginState, Host, is_loading, is_loaded, plugin_in, write_plugin}
use keel_s.Plugins.Environment.{
  Environment, Layer, PluginEvent, deactivate_all, release_all, activate_all,
}
use keel_s.Plugins.Fields.{Keeps, find-write_plugin}
use keel_s.Plugins.Sound.{Sound, Ready, write-Sound, clash}

-- A plugin that others may not touch.
abbrev pub IsHeld : Plugin → Type 0
IsHeld p = (p.transitioning ≡ true) ⊎ (is_loading p.state ≡ true)

-- A record is found again under its handle, in its state and transition, and takes resources as before.
abbrev pub Kept : ℕ → Plugin → List Plugin → Type 0
Kept k p qs =
    (p' : Plugin) × (plugin_in k qs ≡ some p')
    × (p'.state ≡ p.state)
    × (p'.transitioning ≡ p.transitioning)
    × (p'.accepting_resources ≡ p.accepting_resources)

abbrev pub KeepsHeld : List Plugin → List Plugin → Type 0
KeepsHeld ps qs = (k : ℕ) (p : Plugin) → plugin_in k ps ≡ some p → IsHeld p → Kept k p qs

-- A table of plugins that was as it should be is so afterwards, and every plugin in a transition or still
-- loading is as it was.
abbrev pub Respects : Host → Host → Type 0
Respects host host' =
    Sound host.plugins → Sound host'.plugins × KeepsHeld host.plugins host'.plugins

-- What the program relies on: plugin code, layers and subscribers respect the table of plugins. They are
-- free to pause and to resume any plugin.
pub record Reentrant (env : Environment) : Type 0 where
  pub load : (n : ℕ) (host : Host) → Respects host (env.load n host).1
  pub unload : (n : ℕ) (host : Host) → Respects host (env.unload n host)
  pub prepare_pause : (n : ℕ) (host : Host) → Respects host (env.prepare_pause n host).1
  pub prepare_unload : (n : ℕ) (host : Host) → Respects host (env.prepare_unload n host).1
  pub releases : All (λ layer. (n : ℕ) (host : Host) → Respects host (layer n host).1) env.releases
  pub deactivates :
      All (λ layer. (n : ℕ) (host : Host) → Respects host (layer n host).1) env.deactivates
  pub activates : All (λ layer. (n : ℕ) (host : Host) → Respects host (layer n host)) env.activates
  pub publish : (e : PluginEvent) (n : ℕ) (host : Host) → Respects host (env.publish e n host)
  pub publish_all_loaded : (host : Host) → Respects host (env.publish_all_loaded host)

pub Respects-refl : (host : Host) → Respects host host
Respects-refl host s = (s, (λ k p e held. (p, e, refl, refl, refl)))

Held-same :
    (p p' : Plugin) → p'.state ≡ p.state → p'.transitioning ≡ p.transitioning → IsHeld p → IsHeld p'
Held-same p p' s m (inl h) = inl (m ∙ h)
Held-same p p' s m (inr h) = inr (ap is_loading s ∙ h)

pub KeepsHeld-one :
    (ps qs : List Plugin) (k : ℕ) (p : Plugin) (rs : List Plugin)
    → KeepsHeld qs rs
    → IsHeld p
    → Kept k p qs
    → Kept k p rs
KeepsHeld-one ps qs k p rs keeps held (q, e, s, m, a) =
    let (q', e', s', m', a') = keeps k q e (Held-same p q s m held) in
    (q', e', s' ∙ s, m' ∙ m, a' ∙ a)

pub Respects-trans :
    (a b c : Host)
    → Respects a b
    → (Sound b.plugins → Sound c.plugins × KeepsHeld b.plugins c.plugins)
    → Respects a c
Respects-trans a b c h k s =
    let (sound, keeps) = h s in
    let (sound', keeps') = k sound in
    (
      sound',
      (λ n p e held.
          KeepsHeld-one a.plugins b.plugins n p c.plugins keeps' held (keeps n p e held)),
    )

-- One operation on the plugin `t`, begun with the records `ps`: the table is as it should be, the plugin
-- is in the state and in a transition or not, as said, accepts resources where `takes` says so, and every
-- other plugin that is held is as it was.
abbrev pub Step : ℕ → PluginState → Bool → Bool → List Plugin → List Plugin → Type 0
Step t s moving takes ps qs =
    Sound qs
    × ((p : Plugin) × (plugin_in t qs ≡ some p)
        × (p.state ≡ s)
        × (p.transitioning ≡ moving)
        × (takes ≡ true → p.accepting_resources ≡ true))
    × ((k : ℕ) (p : Plugin) → k ≢ t → plugin_in k ps ≡ some p → IsHeld p → Kept k p qs)

pub written_at :
    (t : ℕ) (f : Plugin → Plugin) (qs : List Plugin) (p : Plugin)
    → Keeps f
    → plugin_in t qs ≡ some p
    → plugin_in t (write_plugin t f qs) ≡ some (f p)
written_at t f qs p k e =
    find-write_plugin (λ q. q.handle == t) f t qs p (λ q. ap (λ n. n == t) (k.handle q)) e
    ∙ ap (λ b. some (if b then f p else p)) (find-found (λ q. q.handle == t) qs p e)

pub Kept-write :
    (t k : ℕ) (f : Plugin → Plugin) (p : Plugin) (qs : List Plugin)
    → Keeps f
    → k ≢ t
    → Kept k p qs
    → Kept k p (write_plugin t f qs)
Kept-write t k f p qs keeps away (q, e, s, m, a) =
    let here : q.handle ≡ k = (==_iff q.handle k).0 (find-found (λ x. x.handle == k) qs q e) in
    let other : (q.handle == t) ≡ false = ground arith in
    (
      q,
      find-write_plugin (λ x. x.handle == k) f t qs q (λ x. ap (λ n. n == k) (keeps.handle x)) e
          ∙ ap (λ b. some (if b then f q else q)) other,
      s,
      m,
      a,
    )

IsHeld-at :
    {s : PluginState} {moving : Bool} (p : Plugin)
    → p.state ≡ s
    → p.transitioning ≡ moving
    → (moving ≡ true) ⊎ (is_loading s ≡ true)
    → IsHeld p
IsHeld-at p es em (inl m) = inl (em ∙ m)
IsHeld-at p es em (inr l) = inr (ap is_loading es ∙ l)

pub write-write :
    (f g : Plugin → Plugin) (t : ℕ) (ps : List Plugin)
    → ((p : Plugin) → (f p).handle ≡ p.handle)
    → write_plugin t g (write_plugin t f ps) ≡ write_plugin t (λ p. g (f p)) ps
write-write f g t [] same = refl
write-write f g t (p ∷ ps) same = ground (arith, same p, write-write f g t ps same)

-- What is known to take resources takes them where that is asked.
pub Step-weaken :
    (t : ℕ) (s : PluginState) (takes : Bool) (ps qs : List Plugin)
    → Step t s false true ps qs
    → Step t s false takes ps qs
Step-weaken t s takes ps qs (sound, (p, e, es, em, eo), others) =
    (sound, (p, e, es, em, (λ o. eo refl)), others)

module _ (t : ℕ) (s : PluginState) (moving takes : Bool) (ps : List Plugin) where
  -- Code that respects the table is called, while others may not touch the plugin.
  pub Step-call :
      (a b : Host)
      → (moving ≡ true) ⊎ (is_loading s ≡ true)
      → Respects a b
      → Step t s moving takes ps a.plugins
      → Step t s moving takes ps b.plugins
  Step-call a b held r (sound, (p, e, es, em, eo), others) =
      let (sound', keeps) = r sound in
      let (p', e', s', m', a') = keeps t p e (IsHeld-at p es em held) in
      (
        sound',
        (p', e', s' ∙ es, m' ∙ em, (λ o. a' ∙ eo o)),
        (λ k q away found h.
            KeepsHeld-one ps a.plugins k q b.plugins keeps h (others k q away found h)),
      )

  -- A write to the plugin that leaves it in service if it was.
  pub Step-write :
      (s' : PluginState) (moving' takes' : Bool) (f : Plugin → Plugin) (qs : List Plugin)
      → Keeps f
      → ((p : Plugin)
          → p.state ≡ s
          → p.transitioning ≡ moving
          → ((f p).state ≡ s') × ((f p).transitioning ≡ moving'))
      → ((p : Plugin)
          → (takes ≡ true → p.accepting_resources ≡ true)
          → takes' ≡ true
          → (f p).accepting_resources ≡ true)
      → ((is_loaded s ≡ true) → (moving ≡ false) → (is_loaded s' ≡ true) × (moving' ≡ false))
      → ((p : Plugin)
          → plugin_in t qs ≡ some p
          → is_loaded s' ≡ true
          → is_loaded s ≡ false
          → Ready qs p)
      → Step t s moving takes ps qs
      → Step t s' moving' takes' ps (write_plugin t f qs)
  Step-write s' moving' takes' f qs k sets opens serves ready (sound, (p, e, es, em, eo), others) =
      let (fs, fm) = sets p es em in
      (
        write-Sound t f k qs p sound e
            (λ l m. ready p e (ap is_loaded (sym fs) ∙ l) (ap is_loaded (sym es) ∙ m))
            (λ serving.
              let (l, m) = serves (ap is_loaded (sym es) ∙ serving.0) (sym em ∙ serving.1) in
              (ap is_loaded fs ∙ l, fm ∙ m)),
        (f p, written_at t f qs p k e, fs, fm, opens p eo),
        (λ n q away found h. Kept-write t n f q qs k away (others n q away found h)),
      )

module _ (t : ℕ) (s : PluginState) (moving takes : Bool) (ps : List Plugin) where
  -- A write of fields beside the state and the transition.
  pub Step-flags :
      (takes' : Bool) (f : Plugin → Plugin) (qs : List Plugin)
      → Keeps f
      → ((p : Plugin) → ((f p).state ≡ p.state) × ((f p).transitioning ≡ p.transitioning))
      → ((p : Plugin)
          → (takes ≡ true → p.accepting_resources ≡ true)
          → takes' ≡ true
          → (f p).accepting_resources ≡ true)
      → Step t s moving takes ps qs
      → Step t s moving takes' ps (write_plugin t f qs)
  Step-flags takes' f qs k same opens step =
      Step-write t s moving takes ps s moving takes' f qs k
        (λ p es em. ((same p).0 ∙ es, (same p).1 ∙ em)) opens (λ l m. (l, m))
        (λ p e l m. absurd (clash (sym l ∙ m))) step

pub deactivate_all-Respects :
    (layers : List Layer) (n : ℕ) (host : Host)
    → All (λ layer. (n : ℕ) (host : Host) → Respects host (layer n host).1) layers
    → Respects host (deactivate_all layers n host).1
deactivate_all-Respects [] n host h = Respects-refl host
deactivate_all-Respects (layer ∷ layers) n host (h, hs) =
    elim (Bool-cases (is_ok (layer n host).0)) [
      | inl e ↦ rw e (
          Respects-trans host (layer n host).1 (deactivate_all layers n (layer n host).1).1
            (h n host) (deactivate_all-Respects layers n (layer n host).1 hs))
      | inr e ↦ rw e (h n host)
    ]

pub release_all-Respects :
    (layers : List Layer) (n : ℕ) (host : Host)
    → All (λ layer. (n : ℕ) (host : Host) → Respects host (layer n host).1) layers
    → Respects host (release_all layers n host).1
release_all-Respects [] n host h = Respects-refl host
release_all-Respects (layer ∷ layers) n host (h, hs) =
    Respects-trans host (layer n host).1 (release_all layers n (layer n host).1).1 (h n host)
      (release_all-Respects layers n (layer n host).1 hs)

pub activate_all-Respects :
    (layers : List (ℕ → Host → Host)) (n : ℕ) (host : Host)
    → All (λ layer. (n : ℕ) (host : Host) → Respects host (layer n host)) layers
    → Respects host (activate_all layers n host)
activate_all-Respects [] n host h = Respects-refl host
activate_all-Respects (layer ∷ layers) n host (h, hs) =
    Respects-trans host (layer n host) (activate_all layers n (layer n host)) (h n host)
      (activate_all-Respects layers n (layer n host) hs)
