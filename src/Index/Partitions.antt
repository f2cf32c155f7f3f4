-- ===== src/Index/Partitions.antt =====
-- The partitions of index/model.py: a query answers from the files as they are indexed now.
use agentic_code_intelligenc.Prelude.{
  Bool, true, false, ◌||◌, Option, none, some, [], ◌∷◌, any, if◌then◌else◌, Text, text_eq,
  text_eq_iff, ◌≡◌, refl, arith,
}
use agentic_code_intelligenc.Index.{FileIndex, Index, put_file, drop_file}

-- the partition of a path
unfoldable pub partition : Text → Index → Option FileIndex
partition path [] = none
partition path (fi ∷ files) = if text_eq fi.path path then some fi else partition path files

-- Re-indexing a file replaces its partition, and no other.
pub partition-put_file :
    (fi : FileIndex) (files : Index) (path : Text)
    → partition path (put_file fi files)
      ≡ (if text_eq fi.path path then some fi else partition path files)
unfolding partition put_file
partition-put_file fi [] path = refl
partition-put_file fi (x ∷ files) path = ground (
  arith,
  partition-put_file fi files path,
  text_eq_iff x.path fi.path,
  text_eq_iff fi.path path,
  text_eq_iff x.path path,
)

-- Dropping a file leaves no partition for it, and every other.
pub partition-drop_file :
    (gone : Text) (files : Index) (path : Text)
    → partition path (drop_file gone files)
      ≡ (if text_eq gone path then none else partition path files)
unfolding partition drop_file
partition-drop_file gone [] path = ground arith
partition-drop_file gone (x ∷ files) path = ground (
  arith,
  partition-drop_file gone files path,
  text_eq_iff x.path gone,
  text_eq_iff gone path,
  text_eq_iff x.path path,
)

-- the index has a partition for the path
abbrev pub has : Text → Index → Bool
has path files = any (λ fi. text_eq fi.path path) files

pub has-put_file :
    (path : Text) (fi : FileIndex) (files : Index)
    → has path (put_file fi files) ≡ (text_eq fi.path path || has path files)
unfolding put_file
has-put_file path fi [] = refl
has-put_file path fi (x ∷ files) = ground (
  arith,
  has-put_file path fi files,
  text_eq_iff x.path fi.path,
  text_eq_iff fi.path path,
  text_eq_iff x.path path,
)

-- Of two partitions for one path the second stays.
pub put_file_twice :
    (fi x : FileIndex) (files : Index)
    → fi.path ≡ x.path
    → put_file fi (put_file x files) ≡ put_file fi files
unfolding put_file
put_file_twice fi x [] e = ground (arith, e, text_eq_iff x.path fi.path)
put_file_twice fi x (y ∷ files) e = ground (
  arith,
  e,
  put_file_twice fi x files e,
  text_eq_iff x.path fi.path,
  text_eq_iff y.path fi.path,
  text_eq_iff y.path x.path,
)

-- A partition that is replaced keeps its place, so others may be put before or after.
pub put_file_comm :
    (fi x : FileIndex) (files : Index)
    → text_eq fi.path x.path ≡ false
    → has fi.path files ≡ true
    → put_file fi (put_file x files) ≡ put_file x (put_file fi files)
unfolding put_file
put_file_comm fi x [] other h = cc
put_file_comm fi x (y ∷ files) other h = ground (
  arith,
  other,
  h,
  put_file_comm fi x files other,
  text_eq_iff fi.path x.path,
  text_eq_iff x.path fi.path,
  text_eq_iff y.path fi.path,
  text_eq_iff y.path x.path,
  text_eq_iff fi.path fi.path,
  text_eq_iff x.path x.path,
)
