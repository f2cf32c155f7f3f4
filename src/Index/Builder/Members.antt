-- ===== src/Index/Builder/Members.antt =====
-- The set of the paths of index/builder.py: what is in it, and the paths of an index.
use agentic_code_intelligenc.Prelude.{
  Bool, true, List, [], ◌∷◌, any, Text, text_eq, text_eq_iff, text_eq_refl, ◌≡◌, refl, arith,
  Bool-cases, inl, inr,
}
use agentic_code_intelligenc.Index.{FileIndex, Index, put_file}
use agentic_code_intelligenc.Index.Builder.{add_path, to_set, keys}

-- `path` is in the list
abbrev pub mem : Text → List Text → Bool
mem path paths = any (λ q. text_eq q path) paths

pub add_path_same :
    (path : Text) (known : List Text) → mem path known ≡ true → add_path path known ≡ known
unfolding add_path
add_path_same path [] h = cc
add_path_same path (q ∷ known) h = ground (arith, h, add_path_same path known)

mem-add_path :
    (path p : Text) (known : List Text) → mem path known ≡ true → mem path (add_path p known) ≡ true
unfolding add_path
mem-add_path path p [] h = cc
mem-add_path path p (q ∷ known) h = ground (arith, h, mem-add_path path p known)

mem-add_path_self : (p : Text) (known : List Text) → mem p (add_path p known) ≡ true
unfolding add_path
mem-add_path_self p [] = ground (arith, text_eq_refl p)
mem-add_path_self p (q ∷ known) = ground (arith, mem-add_path_self p known)

mem-to_set_known :
    (path : Text) (paths known : List Text)
    → mem path known ≡ true
    → mem path (to_set paths known) ≡ true
unfolding to_set
mem-to_set_known path [] known h = h
mem-to_set_known path (p ∷ paths) known h =
    mem-to_set_known path paths (add_path p known) (mem-add_path path p known h)

pub mem-to_set :
    (path : Text) (paths known : List Text)
    → mem path paths ≡ true
    → mem path (to_set paths known) ≡ true
unfolding to_set
mem-to_set path [] known h = cc
mem-to_set path (p ∷ paths) known h = elim (Bool-cases (text_eq p path)) [
  | inl e ↦
      let same : p ≡ path = ground (arith, e, text_eq_iff p path) in
      mem-to_set_known path paths (add_path p known) (rw same (mem-add_path_self path known))
  | inr e ↦ mem-to_set path paths (add_path p known) (rw e at h)
]

pub keys-put_file :
    (fi : FileIndex) (files : Index) → keys (put_file fi files) ≡ add_path fi.path (keys files)
unfolding put_file add_path
keys-put_file fi [] = refl
keys-put_file fi (x ∷ files) = ground (arith, keys-put_file fi files, text_eq_iff x.path fi.path)
