-- ===== src/Plugins/Writes.antt =====
-- Writes to one plugin's record, host/src/plugin_manager.cpp: which of them keep the dependencies of the
-- running plugins running.
use keel_s.Common.{
  ℕ, ◌==◌, Bool, true, false, ◌&&◌, ◌||◌, not, List, [], ◌∷◌, some, any, all, All, if◌then◌else◌,
  ◌≡◌, ◌≢◌, ◌⊎◌, refl, sym, ap, ◌∙◌, subst, arith, Bool-cases, inl, inr, ==_iff, and_intro,
  and_left, and_right, or_false_left, or_false_right,
}
use keel_s.Text.{Bytes, equal_insensitive}
use keel_s.Manifest.{Dependency}
use keel_s.Plugins.{Plugin, is_loaded, target_in, write_plugin}
use keel_s.Plugins.Depend.{is_ready, check_dependencies, depends_on, holds}
use keel_s.Plugins.Running.{Served, check_sound, check_complete, target_other}
use keel_s.Plugins.Fields.{Keeps, healthy_in, SupportedIn, names, find-write_plugin}

some_same : {a b : Plugin} → some a ≡ some b → a ≡ b
some_same e = cc

-- The dependencies of a plugin that is written run on.
module _ (f : Plugin → Plugin) (t : ℕ) (k : Keeps f) where
  names-write : (name : Bytes) (p : Plugin) → names name (f p) ≡ names name p
  names-write name p =
      ap (λ s. s && equal_insensitive (f p).name name) (k.selectable p)
      ∙ ap (λ n. p.selectable && equal_insensitive n name) (k.name p)

  -- A target keeps serving where the write leaves it running and out of a transition.
  Served-write :
      (ps : List Plugin) (h : ℕ) (d : Dependency)
      → ((x : Plugin)
          → target_in d.name ps ≡ some x
          → x.handle ≡ t
          → is_loaded x.state ≡ true
          → x.transitioning ≡ false
          → (is_loaded (f x).state ≡ true) × ((f x).transitioning ≡ false))
      → Served ps h d
      → Served (write_plugin t f ps) h d
  Served-write ps h d serves (x, e, other, version, runs, still) =
      elim (Bool-cases (x.handle == t)) [
        | inl here ↦
            let (runs', still') = serves x e (ground arith) runs still in
            (
              f x,
              find-write_plugin (names d.name) f t ps x (names-write d.name) e ∙ rw here refl,
              (λ z. other (sym (k.handle x) ∙ z)),
              rw (k.version x) version,
              runs',
              still',
            )
        | inr away ↦ (
          x,
          find-write_plugin (names d.name) f t ps x (names-write d.name) e ∙ rw away refl,
          other,
          version,
          runs,
          still,
        )
      ]

  -- A target that is written serves on.
  abbrev pub Serves : List Plugin → Dependency → Type 0
  Serves ps d =
      (x : Plugin)
      → target_in d.name ps ≡ some x
      → x.handle ≡ t
      → is_loaded x.state ≡ true
      → x.transitioning ≡ false
      → (is_loaded (f x).state ≡ true) × ((f x).transitioning ≡ false)

  All-Served :
      (ps : List Plugin) (h : ℕ) (ds : List Dependency)
      → All (Serves ps) ds
      → All (Served ps h) ds
      → All (Served (write_plugin t f ps) h) ds
  All-Served ps h [] serves served = tt
  All-Served ps h (d ∷ ds) (a, serves) (b, served) =
      (Served-write ps h d a b, All-Served ps h ds serves served)

  ready-write :
      (ps : List Plugin) (h : ℕ) (ds : List Dependency)
      → All (Serves ps) ds
      → is_ready (check_dependencies ps h ds) ≡ true
      → is_ready (check_dependencies (write_plugin t f ps) h ds) ≡ true
  ready-write ps h ds serves r =
      check_complete (write_plugin t f ps) h ds (All-Served ps h ds serves (check_sound ps h ds r))

  ready-written :
      (ps : List Plugin) (q : Plugin)
      → is_ready (check_dependencies (write_plugin t f ps) q.handle q.dependencies) ≡ true
      → is_ready (check_dependencies (write_plugin t f ps) (f q).handle (f q).dependencies) ≡ true
  ready-written ps q r =
      ap (λ h. is_ready (check_dependencies (write_plugin t f ps) h (f q).dependencies))
        (k.handle q)
      ∙ ap (λ ds. is_ready (check_dependencies (write_plugin t f ps) q.handle ds))
          (k.dependencies q)
      ∙ r

  -- Where the plugin runs after the write, its own dependencies are ready.
  abbrev pub owns : List Plugin → Plugin → Bool
  owns ps q =
      not (q.handle == t)
      || (not (is_loaded (f q).state) || is_ready (check_dependencies ps q.handle q.dependencies))

  -- A write that leaves what runs in service, and whose plugin has its own dependencies ready if it runs
  -- afterwards.
  module _ (ps : List Plugin) (serves : (ds : List Dependency) → All (Serves ps) ds) where
    written_healthy :
        (q : Plugin) (b : Bool)
        → (q.handle == t) ≡ b
        → owns ps q ≡ true
        → healthy_in ps q ≡ true
        → healthy_in (write_plugin t f ps) (if b then f q else q) ≡ true
    written_healthy q true e own h =
        ground (
          arith,
          ready-written ps q,
          ready-write ps q.handle q.dependencies (serves q.dependencies),
        )
    written_healthy q false e own h =
        ground (arith, ready-write ps q.handle q.dependencies (serves q.dependencies))

    all_written :
        (qs : List Plugin)
        → all (owns ps) qs ≡ true
        → all (healthy_in ps) qs ≡ true
        → all (healthy_in (write_plugin t f ps)) (write_plugin t f qs) ≡ true
    all_written [] own h = refl
    all_written (q ∷ qs) own h =
        and_intro _ _ (written_healthy q (q.handle == t) refl (and_left _ _ own) (and_left _ _ h))
          (all_written qs (and_right _ _ own) (and_right _ _ h))

    pub served-SupportedIn :
        all (owns ps) ps ≡ true → SupportedIn ps → SupportedIn (write_plugin t f ps)
    served-SupportedIn own s = all_written ps own s

  -- The plugin's own dependencies are other plugins, which the write does not touch.
  own-Served :
      (ps : List Plugin) (ds : List Dependency)
      → All (Served ps t) ds
      → All (Served (write_plugin t f ps) t) ds
  own-Served ps [] a = tt
  own-Served ps (d ∷ ds) ((x, e, other, version, runs, still), a) = (
    Served-write ps t d
        (λ y found at l still. absurd (other (ap (λ z. z.handle) (some_same (sym e ∙ found)) ∙ at)))
        (x, e, other, version, runs, still),
    own-Served ps ds a,
  )

  pub ready_own :
      (ps : List Plugin) (ds : List Dependency)
      → is_ready (check_dependencies ps t ds) ≡ true
      → is_ready (check_dependencies (write_plugin t f ps) t ds) ≡ true
  ready_own ps ds r =
      check_complete (write_plugin t f ps) t ds (own-Served ps ds (check_sound ps t ds r))

  -- A write to a plugin on which no running plugin depends.
  module _ (plugin : Plugin) (ps : List Plugin)
      (only : All (λ p. (p.handle ≢ t) ⊎ (p.name ≡ plugin.name)) ps) (at : plugin.handle ≡ t) where
    not_named :
        (ds : List Dependency)
        → any (λ d. equal_insensitive d.name plugin.name) ds ≡ false
        → All (Serves ps) ds
    not_named [] h = tt
    not_named (d ∷ ds) h = (
      (λ x e there l still. absurd (
          target_other plugin d.name ps x (or_false_left _ _ h)
            (subst (λ n. All (λ p. (p.handle ≢ n) ⊎ (p.name ≡ plugin.name)) ps) (sym at) only) e
            (there ∙ sym at))),
      not_named ds (or_false_right _ _ h),
    )

    free_healthy :
        (include_retained : Bool) (q : Plugin) (b : Bool)
        → (q.handle == t) ≡ b
        → holds include_retained plugin q ≡ false
        → owns ps q ≡ true
        → healthy_in ps q ≡ true
        → healthy_in (write_plugin t f ps) (if b then f q else q) ≡ true
    free_healthy include_retained q true e free own h =
        let there : q.handle ≡ t = (==_iff q.handle t).0 e in
        let moves : is_ready (check_dependencies ps q.handle q.dependencies) ≡ true
            → is_ready (check_dependencies (write_plugin t f ps) q.handle q.dependencies) ≡ true =
          subst
            (λ n.
              is_ready (check_dependencies ps n q.dependencies) ≡ true
              → is_ready (check_dependencies (write_plugin t f ps) n q.dependencies) ≡ true)
            (sym there) (ready_own ps q.dependencies) in
        ground (arith, ready-written ps q, moves)
    free_healthy include_retained q false e free own h = elim (Bool-cases (is_loaded q.state)) [
      | inl l ↦
          let unnamed : depends_on plugin q ≡ false = ground arith in
          ground (arith, ready-write ps q.handle q.dependencies (not_named q.dependencies unnamed))
      | inr l ↦ ground arith
    ]

    all_free :
        (include_retained : Bool) (qs : List Plugin)
        → any (holds include_retained plugin) qs ≡ false
        → all (owns ps) qs ≡ true
        → all (healthy_in ps) qs ≡ true
        → all (healthy_in (write_plugin t f ps)) (write_plugin t f qs) ≡ true
    all_free include_retained [] free own h = refl
    all_free include_retained (q ∷ qs) free own h =
        and_intro _ _
          (free_healthy include_retained q (q.handle == t) refl (or_false_left _ _ free)
            (and_left _ _ own) (and_left _ _ h))
          (all_free include_retained qs (or_false_right _ _ free) (and_right _ _ own)
            (and_right _ _ h))

    pub free-SupportedIn :
        (include_retained : Bool)
        → any (holds include_retained plugin) ps ≡ false
        → all (owns ps) ps ≡ true
        → SupportedIn ps
        → SupportedIn (write_plugin t f ps)
    free-SupportedIn include_retained free own s = all_free include_retained ps free own s
