-- ===== src/Services/Tables.antt =====
-- The two maps of host/src/published_service_registry.h agree: lemmas on lists of publications whose
-- handles and keys are pairwise distinct.
use keel_s.Common.{
  or_false_left, or_false_right, ℕ, ◌==◌, ◌≡◌, refl, sym, ap, ◌∙◌, Bool, true, false, ◌&&◌, ◌||◌,
  not, List, [], ◌∷◌, ◌++◌, none, some, map, find, filter, any, is_some, arith, Bool-cases, inl,
  inr,
}
use keel_s.Text.{Bytes}
use keel_s.Services.{text_eq, Publication, KeyEntry, key_is, write_consumers, drop_leases}

pub text_eq_eq : (a b : Bytes) → text_eq a b ≡ true → a ≡ b
unfolding text_eq
text_eq_eq [] [] h = refl
text_eq_eq [] (b ∷ right) h = ground arith
text_eq_eq (a ∷ left) [] h = ground arith
text_eq_eq (a ∷ left) (b ∷ right) h = ground (arith, text_eq_eq left right)

pub text_eq_refl : (a : Bytes) → text_eq a a ≡ true
unfolding text_eq
text_eq_refl [] = refl
text_eq_refl (a ∷ left) = ground (arith, text_eq_refl left)

pub text_eq_comm : (a b : Bytes) → text_eq a b ≡ text_eq b a
unfolding text_eq
text_eq_comm [] [] = refl
text_eq_comm [] (b ∷ right) = refl
text_eq_comm (a ∷ left) [] = refl
text_eq_comm (a ∷ left) (b ∷ right) = ground (arith, text_eq_comm left right)

-- The key entry of a publication.
abbrev pub key_of : Publication → KeyEntry
key_of p = record { name = p.name; version = p.version; handle = p.handle }

abbrev pub keys_of : List Publication → List KeyEntry
keys_of = map key_of

-- The publication has the key.
abbrev pub has_key : Bytes → ℕ → Publication → Bool
has_key name version p = text_eq p.name name && p.version == version

-- Some publication of the list has the handle or the key of `p`.
abbrev pub clashes : Publication → List Publication → Bool
clashes p = any (λ q. q.handle == p.handle || has_key p.name p.version q)

-- Handles and keys are pairwise distinct.
abbrev pub Apart : List Publication → Type 0
Apart [] = Unit
Apart (p ∷ ps) = (clashes p ps ≡ false) × Apart ps

pub find-keys_of :
    (name : Bytes) (version : ℕ) (ps : List Publication)
    → is_some (find (key_is name version) (keys_of ps)) ≡ is_some (find (has_key name version) ps)
find-keys_of name version [] = refl
find-keys_of name version (p ∷ ps) = ground (arith, find-keys_of name version ps)

no_handle :
    (p : Publication) (ps : List Publication)
    → clashes p ps ≡ false
    → find (λ q. q.handle == p.handle) ps ≡ none
no_handle p [] h = refl
no_handle p (q ∷ ps) h = ground (arith, no_handle p ps)

handle_apart :
    (p q : Publication) (h : ℕ) (ps : List Publication)
    → clashes p ps ≡ false
    → find (λ x. x.handle == h) ps ≡ some q
    → (p.handle == h) ≡ false
handle_apart p q h [] c f = absurd (ground arith)
handle_apart p q h (x ∷ ps) c f = ground (arith, handle_apart p q h ps)

-- What the key finds, its handle finds again.
pub find_by_key :
    (name : Bytes) (version : ℕ) (ps : List Publication) {k : KeyEntry}
    → Apart ps
    → find (key_is name version) (keys_of ps) ≡ some k
    → (p : Publication) × (k ≡ key_of p)
      × (find (λ q. q.handle == k.handle) ps ≡ some p)
      × (has_key name version p ≡ true)
find_by_key name version [] a h = absurd (ground arith)
find_by_key name version (p ∷ ps) {k = k} a h = elim (Bool-cases (has_key name version p)) [
  | inl here ↦ (p, ground arith, ground arith, here)
  | inr later ↦
      let (q, e, found, key) = find_by_key name version ps a.1 (ground arith) in
      (q, e, ground (arith, handle_apart p q k.handle ps a.0 found), key)
]

key_apart :
    (q p : Publication) (h : ℕ) (ps : List Publication)
    → clashes q ps ≡ false
    → find (λ x. x.handle == h) ps ≡ some p
    → has_key q.name q.version p ≡ false
key_apart q p h [] c f = absurd (ground arith)
key_apart q p h (x ∷ ps) c f = ground (arith, key_apart q p h ps)

nothing_erased :
    (p : Publication) (ps : List Publication)
    → clashes p ps ≡ false
    → filter (λ k. not (key_is p.name p.version k)) (keys_of ps)
      ≡ keys_of (filter (λ q. not (q.handle == p.handle)) ps)
nothing_erased p [] c = refl
nothing_erased p (q ∷ ps) c = ground (arith, nothing_erased p ps)

-- Erasing by key and erasing by handle erase the same publication.
pub filter-keys_of :
    (p : Publication) (ps : List Publication)
    → Apart ps
    → find (λ q. q.handle == p.handle) ps ≡ some p
    → filter (λ k. not (key_is p.name p.version k)) (keys_of ps)
      ≡ keys_of (filter (λ q. not (q.handle == p.handle)) ps)
filter-keys_of p [] a h = refl
filter-keys_of p (q ∷ ps) a h = elim (Bool-cases (q.handle == p.handle)) [
  | inl here ↦
      let e : q ≡ p = ground arith in
      let c : clashes p ps ≡ false = ap (λ x. clashes x ps) (sym e) ∙ a.0 in
      ground (arith, text_eq_refl p.name, nothing_erased p ps c)
  | inr later ↦
      let found : find (λ x. x.handle == p.handle) ps ≡ some p = ground arith in
      ground (
        arith,
        key_apart q p p.handle ps a.0 found,
        text_eq_comm p.name q.name,
        filter-keys_of p ps a.1 found,
      )
]

-- Erasing keeps publications apart.
clashes-filter :
    (p : Publication) (f : Publication → Bool) (ps : List Publication)
    → clashes p ps ≡ false
    → clashes p (filter f ps) ≡ false
clashes-filter p f [] h = refl
clashes-filter p f (q ∷ ps) h = ground (arith, clashes-filter p f ps)

pub Apart-filter : (f : Publication → Bool) (ps : List Publication) → Apart ps → Apart (filter f ps)
Apart-filter f [] a = tt
Apart-filter f (p ∷ ps) a = ground (arith, clashes-filter p f ps a.0, Apart-filter f ps a.1)

clashes-snoc :
    (p q : Publication) (ps : List Publication)
    → clashes p ps ≡ false
    → (q.handle == p.handle || has_key p.name p.version q) ≡ false
    → clashes p (ps ++ q ∷ []) ≡ false
clashes-snoc p q [] h k = ground arith
clashes-snoc p q (x ∷ ps) h k = ground (arith, clashes-snoc p q ps)

clash_comm :
    (p q : Publication)
    → (q.handle == p.handle || has_key p.name p.version q)
      ≡ (p.handle == q.handle || has_key q.name q.version p)
clash_comm p q = ground (arith, text_eq_comm p.name q.name)

pub Apart-snoc :
    (ps : List Publication) (q : Publication)
    → Apart ps
    → clashes q ps ≡ false
    → Apart (ps ++ q ∷ [])
Apart-snoc [] q a h = (refl, tt)
Apart-snoc (p ∷ ps) q a h = (
  clashes-snoc p q ps a.0 (clash_comm p q ∙ or_false_left _ _ h),
  Apart-snoc ps q a.1 (or_false_right _ _ h),
)

clashes-write :
    (p : Publication) (h : ℕ) (f : List ℕ → List ℕ) (ps : List Publication)
    → clashes p (write_consumers h f ps) ≡ clashes p ps
clashes-write p h f [] = refl
clashes-write p h f (q ∷ ps) = ground (arith, clashes-write p h f ps)

clashes-consumers :
    (p : Publication) (cs : List ℕ) (ps : List Publication)
    → clashes (record p { consumers = cs }) ps ≡ clashes p ps
clashes-consumers p cs ps = refl

pub Apart-write :
    (h : ℕ) (f : List ℕ → List ℕ) (ps : List Publication)
    → Apart ps
    → Apart (write_consumers h f ps)
Apart-write h f [] a = tt
Apart-write h f (p ∷ ps) a = ground (arith, clashes-write p h f ps, Apart-write h f ps a.1)

pub keys_of-write :
    (h : ℕ) (f : List ℕ → List ℕ) (ps : List Publication)
    → keys_of (write_consumers h f ps) ≡ keys_of ps
keys_of-write h f [] = refl
keys_of-write h f (p ∷ ps) = ground (arith, keys_of-write h f ps)

pub keys_of-append : (ps qs : List Publication) → keys_of (ps ++ qs) ≡ keys_of ps ++ keys_of qs
keys_of-append [] qs = refl
keys_of-append (p ∷ ps) qs = ap (◌∷◌ (key_of p)) (keys_of-append ps qs)

pub keys_of-drop : (c : ℕ) (ps : List Publication) → keys_of (drop_leases c ps) ≡ keys_of ps
keys_of-drop c [] = refl
keys_of-drop c (p ∷ ps) = ap (◌∷◌ (key_of p)) (keys_of-drop c ps)

clashes-drop :
    (p : Publication) (c : ℕ) (ps : List Publication) → clashes p (drop_leases c ps) ≡ clashes p ps
clashes-drop p c [] = refl
clashes-drop p c (q ∷ ps) = ground (arith, clashes-drop p c ps)

pub Apart-drop : (c : ℕ) (ps : List Publication) → Apart ps → Apart (drop_leases c ps)
Apart-drop c [] a = tt
Apart-drop c (p ∷ ps) a = (clashes-drop p c ps ∙ a.0, Apart-drop c ps a.1)

-- What a lookup finds is under its own handle.
pub found_handle :
    (h : ℕ) (ps : List Publication) (p : Publication)
    → find (λ q. q.handle == h) ps ≡ some p
    → p.handle ≡ h
found_handle h [] p f = absurd (ground arith)
found_handle h (q ∷ ps) p f = ground (arith, found_handle h ps p)
