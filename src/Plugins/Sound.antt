-- ===== src/Plugins/Sound.antt =====
-- The table of plugins of host/src/plugin_manager.cpp is as it should be: no handle twice, and a plugin
-- runs only with its dependencies running.
use keel_s.Common.{
  ℕ, ◌==◌, Bool, true, false, List, [], ◌∷◌, map, any, all, none, some, All, ◌≡◌, ◌≢◌, ◌⊎◌, refl,
  sym, ap, ◌∙◌, subst, arith, Bool-cases, Option-cases, inl, inr, ==_iff, find-found,
}
use keel_s.Manifest.{Dependency}
use keel_s.Plugins.{Plugin, is_loaded, plugin_in, write_plugin}
use keel_s.Plugins.Depend.{is_ready, check_dependencies, holds}
use keel_s.Plugins.Fields.{Keeps, healthy_in, SupportedIn, find-All}
use keel_s.Plugins.Writes.{owns, Serves, served-SupportedIn, free-SupportedIn}

-- No two numbers of the list are the same.
abbrev pub Distinct : List ℕ → Type 0
Distinct [] = Unit
Distinct (n ∷ ns) = All (λ m. m ≢ n) ns × Distinct ns

abbrev pub handles : List Plugin → List ℕ
handles = map {A = Plugin} (λ p. p.handle)

handles-write_plugin :
    (t : ℕ) (f : Plugin → Plugin) (ps : List Plugin)
    → ((p : Plugin) → (f p).handle ≡ p.handle)
    → handles (write_plugin t f ps) ≡ handles ps
handles-write_plugin t f [] same = refl
handles-write_plugin t f (p ∷ ps) same = ground (arith, same p, handles-write_plugin t f ps same)

away-All :
    (t : ℕ) (p : Plugin) (ps : List Plugin)
    → All (λ m. m ≢ t) (handles ps)
    → All (λ q. (q.handle ≢ t) ⊎ (q ≡ p)) ps
away-All t p [] h = tt
away-All t p (q ∷ ps) (h, hs) = (inl h, away-All t p ps hs)

pub some_plugin : {a b : Plugin} → some a ≡ some b → a ≡ b
some_plugin e = cc

-- The record that a handle finds is the only one with the handle.
pub only_record :
    (t : ℕ) (ps : List Plugin) (p : Plugin)
    → Distinct (handles ps)
    → plugin_in t ps ≡ some p
    → All (λ q. (q.handle ≢ t) ⊎ (q ≡ p)) ps
only_record t [] p d e = tt
only_record t (q ∷ ps) p (h, d) e = elim (Bool-cases (q.handle == t)) [
  | inl here ↦
      let same : q ≡ p = some_plugin (ground arith) in
      let at : q.handle ≡ t = (==_iff q.handle t).0 here in
      (inr same, away-All t p ps (subst (λ n. All (λ m. m ≢ n) (handles ps)) at h))
  | inr away ↦ (inl (λ z. absurd (ground arith)), only_record t ps p d (ground arith))
]

abbrev pub Sound : List Plugin → Type 0
Sound ps = SupportedIn ps × Distinct (handles ps)

abbrev pub Ready : List Plugin → Plugin → Type 0
Ready ps p = is_ready (check_dependencies ps p.handle p.dependencies) ≡ true

-- The plugin may be the target of a dependency.
abbrev pub Serving : Plugin → Type 0
Serving p = (is_loaded p.state ≡ true) × (p.transitioning ≡ false)

module _ (t : ℕ) (f : Plugin → Plugin) (k : Keeps f) (ps : List Plugin) (p : Plugin)
    (sound : Sound ps) (found : plugin_in t ps ≡ some p)
    (runs : is_loaded (f p).state ≡ true → is_loaded p.state ≡ false → Ready ps p) where
  only : All (λ q. (q.handle ≢ t) ⊎ (q ≡ p)) ps
  only = only_record t ps p sound.1 found

  owns_here :
      (q : Plugin)
      → (is_loaded (f q).state ≡ true → is_loaded q.state ≡ false → Ready ps q)
      → healthy_in ps q ≡ true
      → owns f t k ps q ≡ true
  owns_here q run h = elim (Bool-cases (is_loaded (f q).state)) [
    | inr l ↦ ground arith
    | inl l ↦ elim (Bool-cases (is_loaded q.state)) [
      | inl m ↦ ground arith
      | inr m ↦ let r = run l m in ground arith
    ]
  ]

  all-owns :
      (qs : List Plugin)
      → All (λ q. (q.handle ≢ t) ⊎ (q ≡ p)) qs
      → all (healthy_in ps) qs ≡ true
      → all (owns f t k ps) qs ≡ true
  all-owns [] o h = refl
  all-owns (q ∷ qs) (inl away, o) h = ground (arith, all-owns qs o)
  all-owns (q ∷ qs) (inr same, o) h =
      let run =
        subst (λ x. is_loaded (f x).state ≡ true → is_loaded x.state ≡ false → Ready ps x)
          (sym same) runs in
      ground (arith, all-owns qs o, owns_here q run)

  written-Distinct : Distinct (handles (write_plugin t f ps))
  written-Distinct = subst Distinct (sym (handles-write_plugin t f ps k.handle)) sound.1

  module _ (serves : Serving p → Serving (f p)) where
    target_of : (x : Plugin) → (x.handle ≢ t) ⊎ (x ≡ p) → x.handle ≡ t → Serving x → Serving (f x)
    target_of x (inl away) at s = absurd (away at)
    target_of x (inr same) at s = subst (λ y. Serving y → Serving (f y)) (sym same) serves s

    all-Serves : (ds : List Dependency) → All (Serves f t k ps) ds
    all-Serves [] = tt
    all-Serves (d ∷ ds) =
        ((λ x e at l still. target_of x (find-All _ _ ps x only e) at (l, still)), all-Serves ds)

    -- A write that leaves the plugin in service, if it was, and lets it run only with its dependencies ready.
    pub write-Sound : Sound (write_plugin t f ps)
    write-Sound = (
      served-SupportedIn f t k ps all-Serves (all-owns ps only sound.0) sound.0,
      written-Distinct,
    )

  named :
      (qs : List Plugin)
      → All (λ q. (q.handle ≢ t) ⊎ (q ≡ p)) qs
      → All (λ q. (q.handle ≢ t) ⊎ (q.name ≡ p.name)) qs
  named [] o = tt
  named (q ∷ qs) (inl away, o) = (inl away, named qs o)
  named (q ∷ qs) (inr same, o) = (inr (ap (λ x. x.name) same), named qs o)

  -- A write that may take the plugin out of service, as nothing that runs depends on it.
  pub free-Sound :
      (include_retained : Bool)
      → any (holds include_retained p) ps ≡ false
      → Sound (write_plugin t f ps)
  free-Sound include_retained free = (
    free-SupportedIn f t k p ps (named ps only)
        ((==_iff p.handle t).0 (find-found (λ q. q.handle == t) ps p found)) include_retained free
        (all-owns ps only sound.0) sound.0,
    written-Distinct,
  )

pub write-absent :
    (t : ℕ) (f : Plugin → Plugin) (ps : List Plugin)
    → plugin_in t ps ≡ none
    → write_plugin t f ps ≡ ps
write-absent t f [] e = refl
write-absent t f (p ∷ ps) e = elim (Bool-cases (p.handle == t)) [
  | inl h ↦ absurd (ground arith)
  | inr h ↦ rw h (ap (λ qs. p ∷ qs) (write-absent t f ps (ground arith)))
]

pub clash : true ≡ false → ⊥
clash e = ground arith

-- A write of fields beside the state and the transition.
pub flags-Sound :
    (t : ℕ) (f : Plugin → Plugin) (ps : List Plugin)
    → Keeps f
    → ((p : Plugin) → ((f p).state ≡ p.state) × ((f p).transitioning ≡ p.transitioning))
    → Sound ps
    → Sound (write_plugin t f ps)
flags-Sound t f ps k same s = elim (Option-cases (plugin_in t ps)) [
  | inl e ↦ subst Sound (sym (write-absent t f ps e)) s
  | inr (p, e) ↦
      write-Sound t f k ps p s e (λ l m. absurd (clash (sym l ∙ (ap is_loaded (same p).0 ∙ m))))
        (λ serving. (ap is_loaded (same p).0 ∙ serving.0, (same p).1 ∙ serving.1))
]
