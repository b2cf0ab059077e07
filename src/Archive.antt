-- ===== src/Archive.antt =====
-- library/src/main/cpp/rootfs_extractor.cpp: the names in an archive and the paths that they are
-- extracted to. A name is the text of a C string; a null name is refused before this code is of use.
pub mod Normalize
pub mod Target
use andlify.Common.{
  Bool, true, false, not, ◌&&◌, List, [], ◌∷◌, ◌++◌, Option, none, some, if◌then◌else◌, ◌==◌, leb,
  length, drop, ◌-◌,
}
use andlify.Common.Bytes.{Bytes, codes, str_eq, is_empty}
use andlify.Common.Components.{tokens}
use mathlib.Core.List.{reverse}

-- `left.back() == '/'`
unfoldable pub ends_in_slash : Bytes → Bool
ends_in_slash [] = false
ends_in_slash (c ∷ []) = c == b'/'
ends_in_slash (c ∷ d ∷ s) = ends_in_slash (d ∷ s)

-- The two cases of `right` in `JoinPath`, where `left` ends in a slash or does not.
unfoldable pub join_right : Bool → Bytes → Bytes → Bytes
join_right true left [] = left
join_right true left (c ∷ right) = if c == b'/' then left ++ right else left ++ (c ∷ right)
join_right false left [] = left
join_right false left (c ∷ right) =
    if c == b'/' then left ++ (c ∷ right) else (left ++ codes "/") ++ (c ∷ right)

unfoldable pub join_path : Bytes → Bytes → Bytes
join_path left right =
    if is_empty left
    then right
    else if is_empty right
    then left
    else join_right (ends_in_slash left) left right

-- `while (!input.empty() && input.front() == '/') input.erase(input.begin())`
unfoldable pub drop_slashes : Bytes → Bytes
drop_slashes [] = []
drop_slashes (c ∷ s) = let rest = drop_slashes s in if c == b'/' then rest else c ∷ s

-- That loop, and the same at the end of the text.
unfoldable pub strip_slashes : Bytes → Bytes
strip_slashes input = reverse (drop_slashes (reverse (drop_slashes input)))

-- `normalized` with one more component.
unfoldable pub append_token : Bytes → Bytes → Bytes
append_token normalized token =
    (if is_empty normalized then normalized else normalized ++ codes "/") ++ token

-- The loop over the components; `none` is the refusal of `..`.
unfoldable pub normalize_tokens : Bytes → List Bytes → Option Bytes
normalize_tokens normalized [] = some normalized
normalize_tokens normalized (token ∷ rest) =
    let skipped = normalize_tokens normalized rest in
    let appended = normalize_tokens (append_token normalized token) rest in
    if not (is_empty token) && not (str_eq token (codes "."))
    then (if str_eq token (codes "..") then none else appended)
    else skipped

-- `normalized = "."` where nothing was appended.
unfoldable pub or_dot : Bytes → Bytes
or_dot normalized = if is_empty normalized then codes "." else normalized

unfoldable pub normalize_archive_path : Bytes → Option Bytes
normalize_archive_path archive_path =
    let input = strip_slashes archive_path in
    if is_empty input then some (codes ".") else elim (normalize_tokens [] (tokens input)) [
      | none ↦ none
      | some normalized ↦ some (or_dot normalized)
    ]

-- Where `ExtractRootfs` writes the entry of that name.
unfoldable pub target_path : Bytes → Bytes → Bytes
target_path extract_dst_path relative_path =
    if str_eq relative_path (codes ".")
    then extract_dst_path
    else join_path extract_dst_path relative_path

unfoldable pub ends_with : Bytes → Bytes → Bool
ends_with value suffix =
    leb (length suffix) (length value) && str_eq (drop (length value - length suffix) value) suffix
