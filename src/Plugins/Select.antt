-- ===== src/Plugins/Select.antt =====
-- SelectPlugin, PluginDisplayIndex, PluginDisplayId and FormatPluginIndex of
-- host/src/plugin_manager.cpp: how a console command names a plugin.
use keel_s.Common.{
  ℕ, zero, suc, ◌-◌, ◌==◌, ltb, Bool, ◌&&◌, ◌||◌, List, [], ◌∷◌, Option, none, some, find, filter,
  all, length, get_elem?, is_empty, if◌then◌else◌, u64_mod,
}
use keel_s.Text.{Bytes, isdigit, equal_insensitive, starts_with_insensitive, contains_insensitive}
use keel_s.Text.Decimal.{FromChars, parsed, out_of_range, no_digits, to_string, from_chars}
use keel_s.Plugins.{Plugin, Host, known_plugins}

-- What SelectPlugin returns, with the line that it writes where it returns null.
pub data Selection : Type 0 where
  selected : Plugin → Selection
  required : Selection
  not_found : Selection
  ambiguous : List Plugin → Selection

-- `known[index - 1]`, where the index is in the range.
abbrev pub at_index : ℕ → List Plugin → Option Plugin
at_index zero known = none
at_index (suc i) known = get_elem? known i

-- std::from_chars into a std::size_t, which must read the whole selector.
abbrev pub parsed_index : FromChars → ℕ
parsed_index (parsed v []) = v
parsed_index (parsed v (c ∷ rest)) = 0
parsed_index (out_of_range rest) = 0
parsed_index no_digits = 0

abbrev pub or_not_found : Option Plugin → Selection
or_not_found none = not_found
or_not_found (some p) = selected p

-- The first loop: a plugin that has the name or the file name.
abbrev pub named : Bytes → Plugin → Bool
named selector p =
    p.selectable && equal_insensitive p.name selector || equal_insensitive p.file selector

-- The second and the third loop.
abbrev pub prefixed : Bytes → Plugin → Bool
prefixed selector p = p.selectable && starts_with_insensitive p.name selector

abbrev pub containing : Bytes → Plugin → Bool
containing selector p = p.selectable && contains_insensitive p.name selector

abbrev pub matches_of : Bytes → List Plugin → List Plugin
matches_of selector known =
    if is_empty (filter (prefixed selector) known)
    then filter (containing selector) known
    else filter (prefixed selector) known

-- The end of the function, by the number of matches.
abbrev pub of_matches : List Plugin → Selection
of_matches [] = not_found
of_matches (p ∷ []) = selected p
of_matches (p ∷ q ∷ rest) = ambiguous (p ∷ q ∷ rest)

unfoldable pub select_plugin : Host → Bytes → Selection
select_plugin host selector =
    let known = known_plugins host in
    if is_empty selector
    then required
    else if all isdigit selector
    then or_not_found (at_index (parsed_index (from_chars (u64_mod - 1) selector)) known)
    else elim (find (named selector) known) [
      | some p ↦ selected p
      | none ↦ of_matches (matches_of selector known)
    ]

-- The place of a plugin in the list, from 1, and 0 where it is not in it.
abbrev pub place : ℕ → List Plugin → ℕ
place handle [] = 0
place handle (p ∷ known) =
    let rest = place handle known in
    if p.handle == handle then 1 else if rest == 0 then 0 else suc rest

unfoldable pub plugin_display_index : Host → ℕ → ℕ
plugin_display_index host handle = place handle (known_plugins host)

unfoldable pub format_plugin_index : ℕ → Bytes
format_plugin_index index =
    let result = to_string index in if ltb (length result) 2 then 48 ∷ result else result

unfoldable pub plugin_display_id : Host → ℕ → Bytes
plugin_display_id host handle = format_plugin_index (plugin_display_index host handle)
