-- ===== src/Files/Paths.antt =====
-- `pathlib`: joining, resolving and comparing paths.
use agentic_code_intelligenc.Prelude.{
  ◌==◌, Bool, true, false, ◌&&◌, ◌||◌, Option, none, some, List, [], ◌∷◌, ◌++◌, if◌then◌else◌, Text,
  codes, text_eq, text_eq_iff, text_eq_refl, text_lt, join_with, starts_with, ◌≡◌, ◌↔◌, refl, arith,
}

abbrev pub FilePath : Type 0
FilePath = List Text

unfoldable pub path_eq : FilePath → FilePath → Bool
path_eq [] [] = true
path_eq (a ∷ p) (b ∷ q) = text_eq a b && path_eq p q
path_eq _ _ = false

-- The rest of `p` below `root`.
unfoldable pub strip : FilePath → FilePath → Option FilePath
strip [] p = some p
strip (r ∷ root) [] = none
strip (r ∷ root) (a ∷ p) = if text_eq r a then strip root p else none

-- `root in p.parents`
unfoldable pub is_under : FilePath → FilePath → Bool
unfolding strip
is_under root p = elim (strip root p) [ none ↦ false | some [] ↦ false | some (_ ∷ _) ↦ true ]

-- The components of a relative path text; `""` and `"."` are dropped, `".."` is kept.
split_from : Text → Text → List Text
split_from [] acc = acc ∷ []
split_from (c ∷ s) acc =
    let cut = acc ∷ split_from s [] in
    let on = split_from s (acc ++ c ∷ []) in if c == b'/' then cut else on

clean : List Text → List Text
clean [] = []
clean (a ∷ p) =
    let rest = clean p in if text_eq a [] || text_eq a (codes ".") then rest else a ∷ rest

unfoldable pub parts : Text → FilePath
unfolding split_from clean
parts s = clean (split_from s [])

-- `p / s`: an absolute `s` takes the place of `p`.
unfoldable pub join : FilePath → Text → FilePath
unfolding parts starts_with
join p s = if starts_with (codes "/") s then parts s else p ++ parts s

-- `p < q` compares the components.
unfoldable pub path_lt : FilePath → FilePath → Bool
path_lt [] [] = false
path_lt [] (b ∷ q) = true
path_lt (a ∷ p) [] = false
path_lt (a ∷ p) (b ∷ q) = let rest = path_lt p q in if text_eq a b then rest else text_lt a b

-- `p.as_posix()` of a relative path
unfoldable pub as_posix : FilePath → Text
as_posix p = join_with (codes "/") p

drop_last : FilePath → FilePath
drop_last [] = []
drop_last (a ∷ []) = []
drop_last (a ∷ b ∷ p) = a ∷ drop_last (b ∷ p)

-- `p.parent`
unfoldable pub parent : FilePath → FilePath
unfolding drop_last
parent p = drop_last p

collapse : FilePath → FilePath → FilePath
unfolding drop_last
collapse acc [] = acc
collapse acc (a ∷ p) = collapse (if text_eq a (codes "..") then drop_last acc else acc ++ a ∷ []) p

-- `p.resolve()`: `..` goes up, and stays at the root.
unfoldable pub resolve : FilePath → FilePath
unfolding collapse
resolve p = collapse [] p

path_eq_refl : (p : FilePath) → path_eq p p ≡ true
unfolding path_eq
path_eq_refl [] = refl
path_eq_refl (a ∷ p) = ground (arith, text_eq_refl a, path_eq_refl p)

eq_of_path_eq : (p q : FilePath) → path_eq p q ≡ true → p ≡ q
unfolding path_eq
eq_of_path_eq [] [] h = refl
eq_of_path_eq [] (b ∷ q) h = cc
eq_of_path_eq (a ∷ p) [] h = cc
eq_of_path_eq (a ∷ p) (b ∷ q) h = ground (arith, text_eq_iff a b, eq_of_path_eq p q)

path_eq_of_eq : (p q : FilePath) → p ≡ q → path_eq p q ≡ true
path_eq_of_eq p q e = cc (path_eq_refl p, e)

pub path_eq_iff : (p q : FilePath) → (path_eq p q ≡ true) ↔ (p ≡ q)
path_eq_iff p q = (eq_of_path_eq p q, path_eq_of_eq p q)

-- `strip` takes apart what `++` puts together, and nothing else.
pub strip-append : (root p : FilePath) → strip root (root ++ p) ≡ some p
unfolding strip
strip-append [] p = refl
strip-append (r ∷ root) p = ground (arith, text_eq_refl r, strip-append root p)

pub append-strip : (root p rest : FilePath) → strip root p ≡ some rest → p ≡ root ++ rest
unfolding strip
append-strip [] p rest h = ground arith
append-strip (r ∷ root) [] rest h = cc
append-strip (r ∷ root) (a ∷ p) rest h = ground (arith, text_eq_iff r a, append-strip root p rest)

pub parent-append : (d : FilePath) (x : Text) → parent (d ++ x ∷ []) ≡ d
unfolding parent drop_last
parent-append [] x = refl
parent-append (a ∷ []) x = refl
parent-append (a ∷ b ∷ d) x = rw (parent-append (b ∷ d) x) refl

resolve_dots :
    resolve (codes "srv" ∷ codes "a" ∷ codes ".." ∷ codes "b" ∷ []) ≡ codes "srv" ∷ codes "b" ∷ []
unfolding resolve text_eq
resolve_dots = refl

join_split :
    join (codes "srv" ∷ []) (codes "a//b/./c")
    ≡ codes "srv" ∷ codes "a" ∷ codes "b" ∷ codes "c" ∷ []
unfolding join text_eq
join_split = refl
