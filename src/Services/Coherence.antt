-- ===== src/Services/Coherence.antt =====
-- The last loop of ReleasePlugin of host/src/published_service_registry.cpp, which erases from both
-- maps while it walks one of them.
use keel_s.Common.{
  subst, ℕ, ◌==◌, ◌≡◌, refl, sym, ap, ◌∙◌, Bool, true, false, ◌&&◌, not, same, List, [], ◌∷◌,
  filter, any, all, arith, if◌then◌else◌, Bool-cases, inl, inr, and_left, and_right,
}
use keel_s.Services.{Publication, Registry, key_is, remove_publication, drop_published}
use keel_s.Services.Tables.{text_eq_comm, text_eq_refl, keys_of, has_key, clashes, Apart}

-- The handle and the key of `p` single out the same publications of the list.
abbrev pub coherent : Publication → List Publication → Bool
coherent p = all (λ q. same (q.handle == p.handle) (has_key p.name p.version q))

abbrev pub all_coherent : List Publication → List Publication → Bool
all_coherent ps qs = all (λ p. coherent p qs) ps

coherent-keys :
    (p : Publication) (qs : List Publication)
    → coherent p qs ≡ true
    → filter (λ k. not (key_is p.name p.version k)) (keys_of qs)
      ≡ keys_of (filter (λ q. not (q.handle == p.handle)) qs)
coherent-keys p [] h = refl
coherent-keys p (q ∷ qs) h = ground (arith, coherent-keys p qs)

coherent-filter :
    (p : Publication) (f : Publication → Bool) (qs : List Publication)
    → coherent p qs ≡ true
    → coherent p (filter f qs) ≡ true
coherent-filter p f [] h = refl
coherent-filter p f (q ∷ qs) h = ground (arith, coherent-filter p f qs)

all_coherent-filter :
    (f : Publication → Bool) (ps qs : List Publication)
    → all_coherent ps qs ≡ true
    → all_coherent ps (filter f qs) ≡ true
all_coherent-filter f [] qs h = refl
all_coherent-filter f (p ∷ ps) qs h =
    ground (arith, coherent-filter p f qs, all_coherent-filter f ps qs)

coherent_apart :
    (p : Publication) (qs : List Publication) → clashes p qs ≡ false → coherent p qs ≡ true
coherent_apart p [] h = refl
coherent_apart p (q ∷ qs) h = ground (arith, coherent_apart p qs)

coherent_cons :
    (p : Publication) (ps qs : List Publication)
    → clashes p ps ≡ false
    → all_coherent ps qs ≡ true
    → all_coherent ps (p ∷ qs) ≡ true
coherent_cons p [] qs c h = refl
coherent_cons p (q ∷ ps) qs c h = ground (arith, coherent_cons p ps qs, text_eq_comm p.name q.name)

pub Apart-coherent : (ps : List Publication) → Apart ps → all_coherent ps ps ≡ true
Apart-coherent [] a = refl
Apart-coherent (p ∷ ps) a = ground (
  arith,
  coherent_apart p ps a.0,
  text_eq_refl p.name,
  coherent_cons p ps ps a.0 (Apart-coherent ps a.1),
)

-- Some publication of the plugin in the list has the handle of `q`.
abbrev pub gone_with : ℕ → List Publication → Publication → Bool
gone_with plugin ps q = any (λ p. p.provider == plugin && q.handle == p.handle) ps

filter-filter :
    (f g : Publication → Bool) (qs : List Publication)
    → filter f (filter g qs) ≡ filter (λ q. g q && f q) qs
filter-filter f g [] = refl
filter-filter f g (q ∷ qs) = ground (arith, filter-filter f g qs)

filter-true : (qs : List Publication) → filter (λ q. true) qs ≡ qs
filter-true [] = refl
filter-true (q ∷ qs) = ap (◌∷◌ q) (filter-true qs)

filter_congr :
    (f g : Publication → Bool) (qs : List Publication)
    → ((q : Publication) → f q ≡ g q)
    → filter f qs ≡ filter g qs
filter_congr f g [] h = refl
filter_congr f g (q ∷ qs) h = ground (arith, h q, filter_congr f g qs h)

-- What the loop leaves of the publications, and that it leaves the same of the keys.
abbrev pub Dropped : (Publication → Bool) → Registry → Registry → Type 0
Dropped gone r r' =
    (r'.publications ≡ filter (λ q. not (gone q)) r.publications)
    × (r'.publications_by_key ≡ keys_of r'.publications)
    × (r'.next_publication ≡ r.next_publication)
    × (r'.shutting_down ≡ r.shutting_down)

Dropped-congr :
    (f g : Publication → Bool) (r r' : Registry)
    → ((q : Publication) → f q ≡ g q)
    → Dropped f r r'
    → Dropped g r r'
Dropped-congr f g r r' h (left, keys, next, down) =
    (left ∙ filter_congr _ _ r.publications (λ q. ap not (h q)), keys, next, down)

pub drop_published_lem :
    (plugin : ℕ) (ps : List Publication) (r : Registry)
    → all_coherent ps r.publications ≡ true
    → r.publications_by_key ≡ keys_of r.publications
    → Dropped (gone_with plugin ps) r (drop_published plugin ps r)
drop_published_lem plugin [] r h k = (sym (filter-true r.publications), k, refl, refl)
drop_published_lem plugin (p ∷ ps) r h k = elim (Bool-cases (p.provider == plugin)) [
  | inr other ↦
      subst (Dropped (gone_with plugin (p ∷ ps)) r)
        (ap (λ b. drop_published plugin ps (if b then remove_publication r p else r)) (sym other))
        (Dropped-congr (gone_with plugin ps) (gone_with plugin (p ∷ ps)) r
          (drop_published plugin ps r) (λ q. ground arith)
          (drop_published_lem plugin ps r (and_right _ _ h) k))
  | inl own ↦
      let r' = remove_publication r p in
      let rest = λ (q : Publication). not (q.handle == p.handle) in
      let keys =
        ap (filter (λ e. not (key_is p.name p.version e))) k
        ∙ coherent-keys p r.publications (and_left _ _ h) in
      let (left, keys', next, down) =
        drop_published_lem plugin ps r'
          (all_coherent-filter rest ps r.publications (and_right _ _ h)) keys in
      subst (Dropped (gone_with plugin (p ∷ ps)) r)
        (ap (λ b. drop_published plugin ps (if b then remove_publication r p else r)) (sym own))
        (
          left
              ∙ filter-filter (λ q. not (gone_with plugin ps q)) rest r.publications
              ∙ filter_congr (λ q. rest q && not (gone_with plugin ps q))
                  (λ q. not (gone_with plugin (p ∷ ps) q)) r.publications (λ q. ground arith),
          keys',
          next,
          down,
        )
]

gone_clash :
    (plugin : ℕ) (p : Publication) (ps : List Publication)
    → clashes p ps ≡ false
    → gone_with plugin ps p ≡ false
gone_clash plugin p [] h = refl
gone_clash plugin p (q ∷ ps) h = ground (arith, gone_clash plugin p ps)

gone_cons :
    (plugin : ℕ) (p : Publication) (ps qs : List Publication)
    → clashes p qs ≡ false
    → all (λ q. same (gone_with plugin ps q) (q.provider == plugin)) qs ≡ true
    → all (λ q. same (gone_with plugin (p ∷ ps) q) (q.provider == plugin)) qs ≡ true
gone_cons plugin p ps [] c h = refl
gone_cons plugin p ps (q ∷ qs) c h = ground (arith, gone_cons plugin p ps qs)

gone_same :
    (plugin : ℕ) (ps : List Publication)
    → Apart ps
    → all (λ q. same (gone_with plugin ps q) (q.provider == plugin)) ps ≡ true
gone_same plugin [] a = refl
gone_same plugin (p ∷ ps) a =
    ground
      (arith, gone_clash plugin p ps a.0, gone_cons plugin p ps ps a.0 (gone_same plugin ps a.1))

filter-same :
    (f g : Publication → Bool) (qs : List Publication)
    → all (λ q. same (f q) (g q)) qs ≡ true
    → filter (λ q. not (f q)) qs ≡ filter (λ q. not (g q)) qs
filter-same f g [] h = refl
filter-same f g (q ∷ qs) h = ground (arith, filter-same f g qs)

-- Walking the whole list drops the plugin's publications and no others.
pub drop_all :
    (plugin : ℕ) (r : Registry)
    → Apart r.publications
    → r.publications_by_key ≡ keys_of r.publications
    → Dropped (λ q. q.provider == plugin) r (drop_published plugin r.publications r)
drop_all plugin r a k =
    let (left, keys, next, down) =
      drop_published_lem plugin r.publications r (Apart-coherent r.publications a) k in
    (
      left
          ∙ filter-same (gone_with plugin r.publications) (λ q. q.provider == plugin) r.publications
              (gone_same plugin r.publications a),
      keys,
      next,
      down,
    )
