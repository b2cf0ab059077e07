-- ===== src/VirtualPath/Laws.antt =====
-- `ResolveVirtualRelativePath`: the shape of its result, and how resolutions compose.
use andlify.Common.{
  false, not, ◌&&◌, List, [], ◌∷◌, ◌++◌, ◌≡◌, ◌≢◌, inl, inr, refl, sym, ap, ◌∙◌, arith, Bool-cases,
}
use andlify.Common.Bytes.{Bytes, codes, str_eq, is_empty, str_eq_iff}
use andlify.Common.Components.{
  tokens, join, All, All-append, NoSlash, tokens-append_slash, tokens-join, tokens-NoSlash,
}
use mathlib.Core.List.{append_assoc, append-nil}
use andlify.VirtualPath.{
  pop_back, push_component, push_components, render, resolve_virtual_relative_path,
}

-- A component of a resolved path.
abbrev pub IsPlain : Bytes → Type 0
IsPlain t = NoSlash t × (t ≢ []) × (t ≢ codes ".") × (t ≢ codes "..")

pub push_components-append :
    (cs ts us : List Bytes)
    → push_components cs (ts ++ us) ≡ push_components (push_components cs ts) us
unfolding push_components
push_components-append cs [] us = refl
push_components-append cs (t ∷ ts) us = push_components-append (push_component cs t) ts us

is_empty-false : (t : Bytes) → t ≢ [] → is_empty t ≡ false
unfolding is_empty
is_empty-false [] h = absurd (h refl)
is_empty-false (c ∷ t) h = refl

pub str_eq_ne : (a b : Bytes) → a ≢ b → str_eq a b ≡ false
str_eq_ne a b h = ground (arith, str_eq_iff a b)

pub push_component_plain :
    (cs : List Bytes) (t : Bytes) → IsPlain t → push_component cs t ≡ cs ++ (t ∷ [])
unfolding push_component
push_component_plain cs t h =
    rw (str_eq_ne t (codes "..") h.3, str_eq_ne t (codes ".") h.2, is_empty-false t h.1)

-- Plain components are pushed as they are.
pub push_components_plain : (cs ts : List Bytes) → All IsPlain ts → push_components cs ts ≡ cs ++ ts
unfolding push_components
push_components_plain cs [] h = sym (append-nil cs)
push_components_plain cs (t ∷ ts) h =
    rw (push_component_plain cs t h.0, push_components_plain (cs ++ (t ∷ [])) ts h.1)
      (append_assoc cs (t ∷ []) ts)

pop_back-IsPlain : (cs : List Bytes) → All IsPlain cs → All IsPlain (pop_back cs)
unfolding pop_back
pop_back-IsPlain [] h = tt
pop_back-IsPlain (c ∷ []) h = tt
pop_back-IsPlain (c ∷ d ∷ cs) h = (h.0, pop_back-IsPlain (d ∷ cs) h.1)

push_component-IsPlain :
    (cs : List Bytes) (t : Bytes) → All IsPlain cs → NoSlash t → All IsPlain (push_component cs t)
unfolding push_component
push_component-IsPlain cs t h n = elim (Bool-cases (str_eq t (codes ".."))) [
  | inl e ↦ rw e (pop_back-IsPlain cs h)
  | inr e ↦ elim (Bool-cases (not (is_empty t) && not (str_eq t (codes ".")))) [
    | inr f ↦ rw (e, f) h
    | inl f ↦
        rw (e, f)
          (All-append IsPlain cs (t ∷ []) h (
            (
              n,
              (λ q. unfold is_empty in ground arith),
              (λ q. ground (arith, str_eq_iff t (codes "."))),
              (λ q. ground (arith, str_eq_iff t (codes ".."))),
            ),
            tt,
          ))
  ]
]

pub push_components-IsPlain :
    (cs ts : List Bytes) → All IsPlain cs → All NoSlash ts → All IsPlain (push_components cs ts)
unfolding push_components
push_components-IsPlain cs [] h n = h
push_components-IsPlain cs (t ∷ ts) h n =
    push_components-IsPlain (push_component cs t) ts (push_component-IsPlain cs t h n.0) n.1

pub push_empty : (cs : List Bytes) → push_component cs [] ≡ cs
unfolding push_component str_eq is_empty
push_empty cs = refl

pub All-NoSlash : (ts : List Bytes) → All IsPlain ts → All NoSlash ts
All-NoSlash [] h = tt
All-NoSlash (t ∷ ts) h = (h.0.0, All-NoSlash ts h.1)

-- What a rendered list of components means to the next loop.
pub push_components-render :
    (cs ds : List Bytes) → All IsPlain cs → push_components ds (tokens (render cs)) ≡ ds ++ cs
unfolding render
push_components-render [] ds h =
    unfold tokens join push_components in rw (push_empty ds, push_empty ds) (sym (append-nil ds))
push_components-render (c ∷ cs) ds h =
    let e : tokens (codes "/" ++ join (c ∷ cs)) ≡ [] ∷ c ∷ cs =
      unfold tokens in ap (λ l. [] ∷ l) (tokens-join c cs (All-NoSlash (c ∷ cs) h)) in
    rw e (unfold push_components in rw (push_empty ds) (push_components_plain ds (c ∷ cs) h))

-- The components that `base` and then `path` lead to.
pub components_of : Bytes → Bytes → List Bytes
components_of base path = push_components (push_components [] (tokens base)) (tokens path)

pub resolve_components :
    (base path : Bytes) → resolve_virtual_relative_path base path ≡ render (components_of base path)
unfolding resolve_virtual_relative_path components_of
resolve_components base path =
    ap (λ l. render (push_components [] l))
      (ap tokens (append_assoc base (codes "/") path) ∙ tokens-append_slash base path)
    ∙ ap render (push_components-append [] (tokens base) (tokens path))

pub components_of-IsPlain : (base path : Bytes) → All IsPlain (components_of base path)
unfolding components_of
components_of-IsPlain base path =
    push_components-IsPlain (push_components [] (tokens base)) (tokens path)
      (push_components-IsPlain [] (tokens base) tt (tokens-NoSlash base)) (tokens-NoSlash path)

-- An absolute path with no `.`, no `..`, no empty component, and no slash at its end.
abbrev pub IsResolved : Bytes → Type 0
IsResolved path = (cs : List Bytes) × (path ≡ render cs) × All IsPlain cs

-- Whatever the two texts are, the result is absolute and has plain components only: no `..` leads
-- out of the root. Resolved again from `/`, it stays as it is.
pub resolve_virtual_relative_path-IsResolved :
    (base path : Bytes)
    → IsResolved (resolve_virtual_relative_path base path)
      × (resolve_virtual_relative_path (codes "/") (resolve_virtual_relative_path base path)
          ≡ resolve_virtual_relative_path base path)
resolve_virtual_relative_path-IsResolved base path =
    let cs = components_of base path in
    let h = components_of-IsPlain base path in
    let e = resolve_components base path in
    (
      (cs, e, h),
      rw e (
          resolve_components (codes "/") (render cs)
          ∙ ap render (
              unfold components_of in
              (push_components-render cs (push_components [] (tokens (codes "/"))) h
                ∙ ap (λ l. l ++ cs) root_components))),
    )
  where
    root_components : push_components [] (tokens (codes "/")) ≡ []
    root_components = unfold tokens push_components push_component str_eq is_empty in refl

components_of-resolve :
    (base path next : Bytes)
    → components_of (resolve_virtual_relative_path base path) next
      ≡ components_of base (path ++ (codes "/" ++ next))
unfolding components_of
components_of-resolve base path next =
    ap (λ l. push_components (push_components [] (tokens l)) (tokens next))
      (resolve_components base path)
    ∙ (ap (λ l. push_components l (tokens next))
          (push_components-render (components_of base path) [] (components_of-IsPlain base path))
        ∙ (sym (
              push_components-append (push_components [] (tokens base)) (tokens path) (tokens next))
            ∙ ap (push_components (push_components [] (tokens base)))
                (sym (tokens-append_slash path next))))

-- Resolving from the result of a resolution is resolving the two paths in a row, as a process that
-- changes its directory step by step does.
pub resolve_virtual_relative_path-resolve :
    (base path next : Bytes)
    → resolve_virtual_relative_path (resolve_virtual_relative_path base path) next
      ≡ resolve_virtual_relative_path base (path ++ (codes "/" ++ next))
resolve_virtual_relative_path-resolve base path next =
    resolve_components (resolve_virtual_relative_path base path) next
    ∙ (ap render (components_of-resolve base path next)
        ∙ sym (resolve_components base (path ++ (codes "/" ++ next))))
