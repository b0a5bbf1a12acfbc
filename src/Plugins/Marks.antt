-- ===== src/Plugins/Marks.antt =====
-- The mark of a plugin in a transition, host/src/plugin_manager.cpp: what is ready does not hang on it.
use keel_s.Common.{
  ℕ, ◌==◌, Bool, true, false, ◌||◌, List, [], ◌∷◌, any, if◌then◌else◌, ◌≡◌, refl, ap, ◌∙◌,
}
use keel_s.Plugins.{Plugin, write_plugin}
use keel_s.Plugins.Depend.{holds}
use keel_s.Plugins.Transitions.{set_transitioning}

one_marked :
    (include_retained : Bool) (p q : Plugin) (b : Bool)
    → holds include_retained (set_transitioning true p) (if b then set_transitioning true q else q)
      ≡ holds include_retained p q
one_marked include_retained p q true = refl
one_marked include_retained p q false = refl

-- The mark of a plugin does not change what holds it.
module _ (t : ℕ) where
  pub any-holds-marked :
      (include_retained : Bool) (p : Plugin) (qs : List Plugin)
      → any
          (holds include_retained (set_transitioning true p))
          (write_plugin t (set_transitioning true) qs)
        ≡ any (holds include_retained p) qs
  any-holds-marked include_retained p [] = refl
  any-holds-marked include_retained p (q ∷ qs) =
      ap
        (λ b.
          b
          || any (holds include_retained (set_transitioning true p))
              (write_plugin t (set_transitioning true) qs))
        (one_marked include_retained p q (q.handle == t))
      ∙ ap (λ b. holds include_retained p q || b) (any-holds-marked include_retained p qs)
