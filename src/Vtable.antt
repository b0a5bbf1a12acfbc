-- ===== src/Vtable.antt =====
-- hooking/src/vtable.cpp: the replacement of virtual functions, in the table itself (SharedVtableHook)
-- or in a copy that one object points at (InstanceVtable). A pointer is a number, and null is 0. What
-- safetyhook answers on the memory is an argument; an operation runs under its lock, so it is one step.
pub mod Tables
pub mod Hooks
pub mod Refinement
mod Checks
use keel_s.Common.{
  ℕ, suc, ◌-◌, ◌==◌, leb, Bool, true, false, ◌||◌, not, List, length, get_or, set, replicate,
  if◌then◌else◌,
}

pub data VtableHookResult : Type 0 where
  ok invalid conflict protection_failure : VtableHookResult

abbrev pub is_ok : VtableHookResult → Bool
is_ok ok = true
is_ok _ = false

-- Exchange without a change of the protection: `writable` is whether the location can be written, and the
-- second part is what the location holds afterwards.
unfoldable pub exchange : Bool → ℕ → ℕ → ℕ → VtableHookResult × ℕ
exchange writable cell expected desired =
    if not writable
    then (invalid, cell)
    else if cell == expected
    then (ok, desired)
    else (conflict, cell)

-- compare_exchange_strong of a cell: whether it held what was expected, and what it holds afterwards.
unfoldable pub compare_exchange : ℕ → ℕ → ℕ → Bool × ℕ
compare_exchange cell expected desired = if cell == expected then (true, desired) else (false, cell)

-- What safetyhook answers while the protection of a page is changed: the page can be read, its
-- protection was changed, and it was put back. The answer to the second attempt to put it back is not
-- looked at.
pub record Protection : Type 0 where
  pub readable : Bool
  pub changed : Bool
  pub restored : Bool

-- Exchange with a change of the protection: where that cannot be put back, an exchange that was made is
-- rolled back.
unfoldable pub exchange_protected : Protection → ℕ → ℕ → ℕ → VtableHookResult × ℕ
exchange_protected p cell expected desired =
    let (exchanged, observed) = compare_exchange cell expected desired in
    let (_, rolled_back) = compare_exchange observed desired expected in
    if not p.readable
    then (invalid, cell)
    else if not p.changed
    then (protection_failure, cell)
    else if not p.restored
    then (protection_failure, if exchanged then rolled_back else observed)
    else (if exchanged then ok else conflict, observed)

-- SharedVtableHook, with what its slot holds.
pub record SharedVtableHook : Type 0 where
  pub original : ℕ
  pub replacement : ℕ
  pub enabled : Bool
  pub slot : ℕ

unfoldable pub enable_shared : Protection → SharedVtableHook → VtableHookResult × SharedVtableHook
enable_shared p h =
    let (result, cell) = exchange_protected p h.slot h.original h.replacement in
    if h.enabled then (ok, h) else (result, record h { slot = cell; enabled = is_ok result })

unfoldable pub disable_shared : Protection → SharedVtableHook → VtableHookResult × SharedVtableHook
disable_shared p h =
    let (result, cell) = exchange_protected p h.slot h.replacement h.original in
    if not h.enabled
    then (ok, h)
    else (result, record h { slot = cell; enabled = not (is_ok result) })

-- InstanceVtable: the addresses of the two tables and their entries, the replacements, 0 where there is
-- none, and the table pointer that the object holds.
pub record InstanceVtable : Type 0 where
  pub original : ℕ
  pub shadow : ℕ
  pub entries : List ℕ
  pub shadow_entries : List ℕ
  pub replacements : List ℕ
  pub enabled_count : ℕ
  pub object : ℕ

-- Whether the object can be written when a call begins, whether it can when its table pointer is exchanged,
-- and whether the copy can. Another thread may change the object's page in between; the copy is the
-- hook's own memory. Both are aligned: Create checked the object, and the copy was allocated.
pub record Access : Type 0 where
  pub instance_open : Bool
  pub instance_exchange : Bool
  pub shadow_open : Bool

-- What Create leaves of an object whose table has the entries; `shadow` is the copy's address.
abbrev pub created : ℕ → ℕ → List ℕ → InstanceVtable
created original shadow entries = record {
  original = original;
  shadow = shadow;
  entries = entries;
  shadow_entries = entries;
  replacements = replicate (length entries) 0;
  enabled_count = 0;
  object = original;
}

-- The end of Enable.
abbrev pub enabled_at : InstanceVtable → ℕ → ℕ → ℕ → InstanceVtable
enabled_at v index replacement object = record v {
  shadow_entries = set v.shadow_entries index replacement;
  object = object;
  replacements = set v.replacements index replacement;
  enabled_count = suc v.enabled_count;
}

unfoldable pub enable : Access → InstanceVtable → ℕ → ℕ → VtableHookResult × InstanceVtable
enable access v index replacement =
    let entry = get_or v.entries index 0 in
    let (applied, object) = exchange access.instance_exchange v.object v.original v.shadow in
    let (replaced, cell) =
      exchange access.shadow_open (get_or v.shadow_entries index 0) entry replacement in
    if leb (length v.entries) index || replacement == 0 || not (get_or v.replacements index 0 == 0)
    then (invalid, v)
    else if not access.instance_open
    then (invalid, v)
    else if v.enabled_count == 0
    then (if is_ok applied then (ok, enabled_at v index replacement object) else (
      applied,
      record v { shadow_entries = set (set v.shadow_entries index replacement) index entry },
    ))
    else if not (v.object == v.shadow)
    then (conflict, v)
    else if not (is_ok replaced)
    then (replaced, record v { shadow_entries = set v.shadow_entries index cell })
    else (ok, enabled_at v index cell v.object)

-- The end of Disable.
abbrev pub disabled_at : InstanceVtable → ℕ → ℕ → ℕ → InstanceVtable
disabled_at v index cell object = record v {
  shadow_entries = set v.shadow_entries index cell;
  object = object;
  replacements = set v.replacements index 0;
  enabled_count = v.enabled_count - 1;
}

unfoldable pub disable : Access → InstanceVtable → ℕ → ℕ → VtableHookResult × InstanceVtable
disable access v index replacement =
    let entry = get_or v.entries index 0 in
    let (restored, cell) =
      exchange access.shadow_open (get_or v.shadow_entries index 0) replacement entry in
    let (removed, object) = exchange access.instance_exchange v.object v.shadow v.original in
    let (_, rolled_back) = exchange access.shadow_open cell entry replacement in
    if leb (length v.entries) index
      || replacement == 0
      || not (get_or v.replacements index 0 == replacement)
    then (invalid, v)
    else if not access.instance_open
    then (invalid, v)
    else if not (v.object == v.shadow)
    then (conflict, v)
    else if not (is_ok restored)
    then (restored, record v { shadow_entries = set v.shadow_entries index cell })
    else if not (v.enabled_count == 1)
    then (ok, disabled_at v index cell v.object)
    else if not (is_ok removed)
    then (removed, record v { shadow_entries = set v.shadow_entries index rolled_back })
    else (ok, disabled_at v index cell object)

unfoldable pub restore : Access → InstanceVtable → VtableHookResult × InstanceVtable
restore access v =
    let (restored, object) = exchange access.instance_exchange v.object v.shadow v.original in
    if v.enabled_count == 0
    then (ok, v)
    else if not access.instance_open
    then (invalid, v)
    else if not (is_ok restored)
    then (restored, record v { object = object })
    else (
      ok,
      record v {
        object = object;
        shadow_entries = v.entries;
        replacements = replicate (length v.entries) 0;
        enabled_count = 0;
      },
    )
