-- ===== src/VirtualPath.antt =====
-- library/src/main/cpp/ptrace_engine.cpp: a path relative to a directory of the guest becomes an
-- absolute guest path, with no `.` and no `..`, by text alone.
pub mod Laws
pub mod Roots
use andlify.Common.{Bool, true, false, not, ◌&&◌, List, [], ◌∷◌, ◌++◌, if◌then◌else◌}
use andlify.Common.Bytes.{Bytes, codes, str_eq, is_empty}
use andlify.Common.Components.{tokens, join}
use mathlib.Core.List.{foldl}

-- `components.pop_back()`, guarded by `!components.empty()`
unfoldable pub pop_back : List Bytes → List Bytes
pop_back [] = []
pop_back (c ∷ []) = []
pop_back (c ∷ d ∷ cs) = c ∷ pop_back (d ∷ cs)

-- The loop's body.
unfoldable pub push_component : List Bytes → Bytes → List Bytes
push_component components component =
    if str_eq component (codes "..")
    then pop_back components
    else if not (is_empty component) && not (str_eq component (codes "."))
    then components ++ (component ∷ [])
    else components

unfoldable pub push_components : List Bytes → List Bytes → List Bytes
push_components components [] = components
push_components components (t ∷ ts) = push_components (push_component components t) ts

-- `result = "/"`, and the components with a slash between each two.
unfoldable pub render : List Bytes → Bytes
render components = codes "/" ++ join components

unfoldable pub resolve_virtual_relative_path : Bytes → Bytes → Bytes
resolve_virtual_relative_path base_path relative_path =
    render (push_components [] (tokens ((base_path ++ codes "/") ++ relative_path)))
