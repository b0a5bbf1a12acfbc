-- ===== src/Plugins/Naming.antt =====
-- What a selector names: host/src/plugin_manager.cpp.
use keel_s.Common.{
  ℕ, zero, suc, ◌-◌, ◌<◌, ◌≤◌, ◌==◌, ltb, Bool, true, false, List, [], ◌∷◌, none, some, find,
  filter, any, all, length, is_empty, u64_mod, ◌≡◌, ◌≢◌, ◌⊎◌, refl, sym, ap, ◌∙◌, arith, Bool-cases,
  Option-cases, inl, inr,
}
use keel_s.Text.{Bytes, isdigit}
use keel_s.Text.Decimal.{
  to_string, from_chars, value, from_chars-digits, value-to_string, to_string-digits,
}
use keel_s.Plugins.{Plugin, Host, known_plugins}
use keel_s.Plugins.Select.{
  Selection, selected, required, not_found, ambiguous, at_index, parsed_index, or_not_found, named,
  prefixed, containing, matches_of, of_matches, select_plugin, place, plugin_display_index,
  format_plugin_index, plugin_display_id,
}

at_index-suc :
    (n : ℕ) (p : Plugin) (known : List Plugin)
    → n ≢ 0
    → at_index (suc n) (p ∷ known) ≡ at_index n known
at_index-suc zero p known h = absurd (h refl)
at_index-suc (suc n) p known h = refl

at_index-place :
    (handle : ℕ) (known : List Plugin)
    → place handle known ≢ 0
    → (p : Plugin) × (p.handle ≡ handle) × (at_index (place handle known) known ≡ some p)
at_index-place handle [] h = absurd (ground arith)
at_index-place handle (p ∷ known) h = elim (Bool-cases (p.handle == handle)) [
  | inl e ↦ (p, ground arith, ground arith)
  | inr e ↦
      let inside : place handle known ≢ 0 = (λ z. h (ground arith)) in
      let (q, at, found) = at_index-place handle known inside in
      let here : place handle (p ∷ known) ≡ suc (place handle known) = ground arith in
      (
        q,
        at,
        ap (λ i. at_index i (p ∷ known)) here
            ∙ at_index-suc (place handle known) p known inside
            ∙ found,
      )
]

place_le : (handle : ℕ) (known : List Plugin) → place handle known ≤ length known
place_le handle [] = omega arith
place_le handle (p ∷ known) = ground (arith, place_le handle known)

filled_of_long : (text : Bytes) → ltb (length text) 2 ≡ false → is_empty text ≡ false
filled_of_long [] h = ground arith
filled_of_long (c ∷ text) h = refl

zero-digits :
    (text : Bytes)
    → all isdigit text ≡ true
    → (all isdigit (48 ∷ text) ≡ true) × (value (48 ∷ text) ≡ value text)
unfolding isdigit
zero-digits text h = ground arith

read_back :
    (n : ℕ) (text : Bytes)
    → n < u64_mod
    → is_empty text ≡ false
    → all isdigit text ≡ true
    → value text ≡ n
    → parsed_index (from_chars (u64_mod - 1) text) ≡ n
read_back n [] h full digits v = absurd (ground arith)
read_back n (c ∷ text) h full digits v =
    ap parsed_index (from_chars-digits (u64_mod - 1) c text digits (omega arith)) ∙ v

-- The display form of a number is read back as that number.
format-parsed :
    (n : ℕ)
    → n < u64_mod
    → (is_empty (format_plugin_index n) ≡ false)
      × (all isdigit (format_plugin_index n) ≡ true)
      × (parsed_index (from_chars (u64_mod - 1) (format_plugin_index n)) ≡ n)
unfolding format_plugin_index
format-parsed n h =
    let (digits, same_value) = zero-digits (to_string n) (to_string-digits n) in
    elim (Bool-cases (ltb (length (to_string n)) 2)) [
      | inl short ↦ rw short (
        refl,
        digits,
        read_back n (48 ∷ to_string n) h refl digits (same_value ∙ value-to_string n),
      )
      | inr long ↦
          let full : is_empty (to_string n) ≡ false = filled_of_long (to_string n) long in
          rw long (
            full,
            to_string-digits n,
            read_back n (to_string n) h full (to_string-digits n) (value-to_string n),
          )
    ]

select_index :
    (host : Host) (selector : Bytes) (p : Plugin)
    → is_empty selector ≡ false
    → all isdigit selector ≡ true
    → at_index (parsed_index (from_chars (u64_mod - 1) selector)) (known_plugins host) ≡ some p
    → select_plugin host selector ≡ selected p
unfolding select_plugin
select_index host selector p filled digits found = rw filled (rw digits (ap or_not_found found))

-- The index that the list command shows for a plugin selects that plugin, as long as the number of
-- known plugins fits the index.
pub select_plugin-plugin_display_id :
    (host : Host) (handle : ℕ)
    → length (known_plugins host) < u64_mod
    → plugin_display_index host handle ≢ 0
    → (p : Plugin) × (p.handle ≡ handle)
      × (select_plugin host (plugin_display_id host handle) ≡ selected p)
unfolding plugin_display_id plugin_display_index
select_plugin-plugin_display_id host handle small known =
    let (filled, digits, index) =
      format-parsed (place handle (known_plugins host))
        (omega (arith, place_le handle (known_plugins host))) in
    let (p, e, found) = at_index-place handle (known_plugins host) known in
    (
      p,
      e,
      select_index host (plugin_display_id host handle) p filled digits
          (ap (λ i. at_index i (known_plugins host)) index ∙ found),
    )

-- What a selection says of a selector that is no number: the plugin is the first that has the name or the
-- file name; or nobody has it, and the plugin is the only one whose name starts with the selector; or no
-- name starts with it either, and the plugin's is the only one that contains it. Several that start with
-- it, or where none does that contain it, are ambiguous.
abbrev pub Only : (Plugin → Bool) → List Plugin → Plugin → Type 0
Only test known p = filter test known ≡ p ∷ []

abbrev pub Fits : Bytes → List Plugin → Selection → Type 0
Fits selector known (selected p) =
    (find (named selector) known ≡ some p)
    ⊎ ((any (named selector) known ≡ false)
        × (Only (prefixed selector) known p
            ⊎ ((any (prefixed selector) known ≡ false) × Only (containing selector) known p)))
Fits selector known required = selector ≡ []
Fits selector known not_found =
    (any (named selector) known ≡ false)
    × (any (prefixed selector) known ≡ false)
    × (any (containing selector) known ≡ false)
Fits selector known (ambiguous ps) =
    (any (named selector) known ≡ false)
    × (1 < length ps)
    × ((ps ≡ filter (prefixed selector) known)
        ⊎ ((any (prefixed selector) known ≡ false) × (ps ≡ filter (containing selector) known)))

no_any :
    (test : Plugin → Bool) (known : List Plugin) → find test known ≡ none → any test known ≡ false
no_any test [] h = refl
no_any test (p ∷ known) h = ground (arith, no_any test known)

empty-any :
    (test : Plugin → Bool) (known : List Plugin) → filter test known ≡ [] → any test known ≡ false
empty-any test [] h = refl
empty-any test (p ∷ known) h = ground (arith, empty-any test known)

List-cases :
    (ps : List Plugin) → (ps ≡ []) ⊎ ((p : Plugin) × (rest : List Plugin) × (ps ≡ p ∷ rest))
List-cases [] = inl refl
List-cases (p ∷ rest) = inr (p, rest, refl)

contained :
    (selector : Bytes) (known ps : List Plugin)
    → any (named selector) known ≡ false
    → any (prefixed selector) known ≡ false
    → filter (containing selector) known ≡ ps
    → Fits selector known (of_matches ps)
contained selector known [] h k e = (h, k, empty-any _ known e)
contained selector known (p ∷ []) h k e = inr (h, inr (k, e))
contained selector known (p ∷ q ∷ rest) h k e = (h, omega arith, inr (k, sym e))

started :
    (selector : Bytes) (known : List Plugin) (p : Plugin) (ps : List Plugin)
    → any (named selector) known ≡ false
    → filter (prefixed selector) known ≡ p ∷ ps
    → Fits selector known (of_matches (p ∷ ps))
started selector known p [] h e = inr (h, inl e)
started selector known p (q ∷ rest) h e = (h, omega arith, inl (sym e))

of_matches-Fits :
    (selector : Bytes) (known : List Plugin)
    → any (named selector) known ≡ false
    → Fits selector known (of_matches (matches_of selector known))
of_matches-Fits selector known h = elim (List-cases (filter (prefixed selector) known)) [
  | inl none_starts ↦ rw none_starts (
      contained selector known (filter (containing selector) known) h
        (empty-any _ known none_starts) refl)
  | inr (p, ps, some_start) ↦ rw some_start (started selector known p ps h some_start)
]

-- A selector that is not a number selects the first plugin that has the name or the file name; where
-- nobody has it, the only plugin whose name starts with the selector; and where no name starts with it
-- either, the only plugin whose name contains it. It is refused as ambiguous where nobody has the name
-- and several names start with it, or none does and several contain it, and as not found where no plugin
-- has the name or the file name and no name starts with it or contains it.
pub select_plugin-Fits :
    (host : Host) (selector : Bytes)
    → all isdigit selector ≡ false
    → Fits selector (known_plugins host) (select_plugin host selector)
unfolding select_plugin
select_plugin-Fits host [] letters = absurd (ground arith)
select_plugin-Fits host (c ∷ rest) letters =
    rw letters (elim (Option-cases (find (named (c ∷ rest)) (known_plugins host))) [
      | inl nobody ↦
          rw nobody
            (of_matches-Fits (c ∷ rest) (known_plugins host) (no_any _ (known_plugins host) nobody))
      | inr (p, found) ↦ rw found (inl found)
    ])
