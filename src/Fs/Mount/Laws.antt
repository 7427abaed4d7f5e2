-- ===== src/Fs/Mount/Laws.antt =====
-- 4-fs: what survives an unmount, and how `main` takes the disk file's name out of its arguments.
use sistemas_operativos_fiub.Common.{
  ℕ, ◌≡◌, refl, ◌≢◌, true, none, some, List, [], ◌∷◌, ◌++◌, arith, str_eq-ne, str_eq_refl, ap, ◌∙◌,
  ◌<◌, ◌≤◌, leb, length, take, take-all, length-take, if◌then◌else◌,
}
use native.Mathlib.Decide.{dec_lt}
use sistemas_operativos_fiub.Fs.State.{Superblock, Host}
use sistemas_operativos_fiub.Fs.Mount.{
  create_root, Layout, Disk, write_persistence, read_persistence, init, destroy, filedisk_flag,
  parse_args,
}

reads_back :
    (layout : Layout) (sb : Superblock) (d d' : Disk)
    → layout.load (layout.bytes sb) ≡ sb
    → length (layout.bytes sb) ≡ layout.size
    → d'.read_open_ok ≡ true
    → d'.calloc_ok ≡ true
    → d'.image ≡ take d.stored (layout.bytes sb)
    → layout.size ≤ d.stored
    → read_persistence layout d' ≡ some sb
unfolding read_persistence
reads_back layout sb d d' loads whole opens allocates image stored =
    let full : d'.image ≡ layout.bytes sb =
      image ∙ take-all d.stored (layout.bytes sb) (omega (arith, whole, stored)) in
    rw (opens, allocates, full, read_persistence, has_size)
      (ap some
        (ap layout.load (take-all layout.size (layout.bytes sb) (omega (arith, whole))) ∙ loads))
  where
    has_size : leb layout.size (length (layout.bytes sb)) ≡ true
    has_size = ground (arith, whole)

reads_nothing :
    (layout : Layout) (sb : Superblock) (d d' : Disk)
    → d'.image ≡ take d.stored (layout.bytes sb)
    → d.stored < layout.size
    → read_persistence layout d' ≡ none
unfolding read_persistence
reads_nothing layout sb d d' image cut =
    let short : length d'.image < layout.size =
      omega
        (arith, ap (λ (l : List ℕ). length l) image, length-take d.stored (layout.bytes sb), cut) in
    ground (arith, short)

-- Where the bytes of a superblock in memory are `size` many and give it back, and the file can be
-- opened and memory allocated: unmounting reports what `fwrite` returned, and the next mount has the
-- same table if all the bytes of it are in the file; if not, even where no error was reported, it
-- starts from a new root directory.
pub init-destroy :
    (layout : Layout) (h : Host) (sb : Superblock) (d : Disk)
    → layout.load (layout.bytes sb) ≡ sb
    → length (layout.bytes sb) ≡ layout.size
    → d.write_open_ok ≡ true
    → d.read_open_ok ≡ true
    → d.calloc_ok ≡ true
    → ((destroy layout sb d).0 ≡ d.fwrite_ok)
      × ((init layout h (destroy layout sb d).1).0
          ≡ (if leb layout.size d.stored then sb else create_root h))
unfolding init destroy write_persistence
init-destroy layout h sb d loads whole opens reads allocates =
    let d' = (destroy layout sb d).1 in
    let image : d'.image ≡ take d.stored (layout.bytes sb) = ground (arith, opens) in
    let same_reads : d'.read_open_ok ≡ true = ground (arith, opens, reads) in
    let same_allocates : d'.calloc_ok ≡ true = ground (arith, opens, allocates) in
    (
      ground (arith, opens),
      elim (dec_lt d.stored layout.size) [
        | yes cut ↦ ground (arith, reads_nothing layout sb d d' image cut, cut)
        | no all ↦ ground (
          arith,
          reads_back layout sb d d' loads whole same_reads same_allocates image (omega arith),
          all,
        )
      ],
    )

-- No argument of the list is the flag.
abbrev pub NoFlag : List (List ℕ) → Type 0
NoFlag [] = Unit {0}
NoFlag (x ∷ xs) = (x ≢ filedisk_flag) × NoFlag xs

-- The first flag with an argument behind it names the disk file, wherever it stands; both are
-- taken out and the others keep their order.
pub parse_args_flag :
    (before rest : List (List ℕ)) (file : List ℕ)
    → NoFlag before
    → parse_args (before ++ (filedisk_flag ∷ file ∷ rest)) ≡ (some file, before ++ rest)
unfolding parse_args
parse_args_flag [] rest file n = rw (str_eq_refl filedisk_flag)
parse_args_flag (x ∷ []) rest file n =
    rw (str_eq-ne x filedisk_flag n.0, parse_args_flag [] rest file tt)
parse_args_flag (x ∷ y ∷ before) rest file n =
    rw (str_eq-ne x filedisk_flag n.0, parse_args_flag (y ∷ before) rest file n.1)

-- Without the flag the arguments go on unchanged.
pub parse_args_plain : (args : List (List ℕ)) → NoFlag args → parse_args args ≡ (none, args)
unfolding parse_args
parse_args_plain [] n = refl
parse_args_plain (x ∷ []) n = refl
parse_args_plain (x ∷ y ∷ args) n =
    rw (str_eq-ne x filedisk_flag n.0, parse_args_plain (y ∷ args) n.1)
