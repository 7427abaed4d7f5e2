-- ===== src/Shell/Builtins/Directory.antt =====
-- 2-shell/builtin.c: where `cd` goes.
use sistemas_operativos_fiub.Common.{
  LacksByte, ℕ, ◌≡◌, ◌≢◌, ◌<◌, refl, ap, ◌∙◌, true, none, some, List, [], ◌∷◌, ◌++◌, arith, length,
  str_eq, str_eq-ne,
}
use mathlib.Core.List
use sistemas_operativos_fiub.Shell.Parsing.{space, before_char, skip_spaces, split_line}
use sistemas_operativos_fiub.Shell.Lines.Pipes.{StartsPlain, split_line-at}
use sistemas_operativos_fiub.Shell.Builtins.{
  Session, Libc, contains_command, getcwd, chdir, go_back, go_home, change_directory, cd,
}
use sistemas_operativos_fiub.Shell.Builtins.Reverse.{
  reverse_lem, reverse_aux-append, reverse_aux_lem, reverse-reverse_aux,
}

-- The last byte is there and no space.
abbrev pub EndsPlain : List ℕ → Type 0
EndsPlain xs = StartsPlain (List.reverse xs)

LacksByte-reverse_aux :
    (c : ℕ) (xs r : List ℕ) → LacksByte c xs → LacksByte c r → LacksByte c (List.reverse_aux xs r)
LacksByte-reverse_aux c [] r l m = m
LacksByte-reverse_aux c (x ∷ xs) r (ne, l) m = LacksByte-reverse_aux c xs (x ∷ r) l (ne, m)

reverse-path :
    (p name : List ℕ)
    → List.reverse (p ++ (b'/' ∷ name)) ≡ List.reverse name ++ (b'/' ∷ List.reverse p)
reverse-path p name =
    reverse_aux-append p (b'/' ∷ name) [] ∙ reverse_aux_lem name (b'/' ∷ List.reverse p)

-- The directory without its last name is the one above it.
pub go_back_lem :
    (p name : List ℕ) → LacksByte b'/' name → EndsPlain p → go_back (p ++ (b'/' ∷ name)) ≡ p
unfolding go_back
go_back_lem p name l e =
    rw
      (
        reverse_lem (p ++ (b'/' ∷ name)),
        reverse-path p name,
        split_line-at b'/' (List.reverse name) (List.reverse p)
            (LacksByte-reverse_aux b'/' name [] l tt) e,
        reverse_lem (List.reverse p),
      )
      (reverse-reverse_aux p [])

-- `chdir` as it is documented: it fails on the empty path.
pub record IsChdir (h : Libc) : Type 0 where
  pub empty : (cwd : List ℕ) → h.chdir_from cwd [] ≡ none

-- A line "cd" with a directory.
abbrev pub cd_line : List ℕ → List ℕ
cd_line directory = b'c' ∷ b'd' ∷ space ∷ directory

skip_spaces-plain : (t : List ℕ) → StartsPlain t → skip_spaces t ≡ t
unfolding skip_spaces
skip_spaces-plain [] p = absurd p
skip_spaces-plain (x ∷ t) p = ground arith

cd_line-directory :
    (h : Libc) (directory : List ℕ) (s s' : Session)
    → StartsPlain directory
    → change_directory h directory s ≡ some s'
    → cd h (cd_line directory) s ≡ some (true, s')
unfolding cd contains_command split_line before_char skip_spaces
cd_line-directory h directory s s' p e = rw (cd, skip_spaces-plain directory p, e) refl

change_directory-path :
    (h : Libc) (directory : List ℕ) (s : Session)
    → StartsPlain directory
    → directory ≢ (b'.' ∷ [])
    → directory ≢ (b'.' ∷ b'.' ∷ [])
    → change_directory h directory s ≡ some (chdir h directory s)
unfolding change_directory str_eq
change_directory-path h [] s p d1 d2 = absurd p
change_directory-path h (x ∷ directory) s p d1 d2 =
    rw
      (
        change_directory,
        str_eq-ne (x ∷ directory) (b'.' ∷ []) d1,
        str_eq-ne (x ∷ directory) (b'.' ∷ b'.' ∷ []) d2,
      )
      refl

-- `cd` to a directory that is not "." or ".." is one `chdir` to it.
pub cd-path :
    (h : Libc) (directory : List ℕ) (s : Session)
    → StartsPlain directory
    → directory ≢ (b'.' ∷ [])
    → directory ≢ (b'.' ∷ b'.' ∷ [])
    → cd h (cd_line directory) s ≡ some (true, chdir h directory s)
cd-path h directory s p d1 d2 =
    cd_line-directory h directory s (chdir h directory s) p
      (change_directory-path h directory s p d1 d2)

chdir-some :
    (h : Libc) (path dir : List ℕ) (s : Session)
    → h.chdir_from s.cwd path ≡ some dir
    → chdir h path s ≡ record s { cwd = dir }
unfolding chdir
chdir-some h path dir s e = rw (chdir, e) refl

getcwd-short : (s : Session) → length s.cwd < 1024 → getcwd s ≡ some s.cwd
unfolding getcwd
getcwd-short s l = ground arith

change_directory-parent :
    (h : Libc) (s : Session) (p name q : List ℕ)
    → s.cwd ≡ p ++ (b'/' ∷ name)
    → length s.cwd < 1024
    → LacksByte b'/' name
    → EndsPlain p
    → h.chdir_from s.cwd p ≡ some p
    → h.chdir_from p (b'.' ∷ b'.' ∷ []) ≡ some q
    → change_directory h (b'.' ∷ b'.' ∷ []) s ≡ some (record s { cwd = q })
unfolding change_directory str_eq
change_directory-parent h s p name q e len l plain up up2 =
    rw
      (
        getcwd-short s len,
        (ap go_back e ∙ go_back_lem p name l plain),
        chdir-some h p p s up,
        chdir-some h (b'.' ∷ b'.' ∷ []) q (record s { cwd = p }) up2,
      )
      refl

-- `cd ..` in a directory with a name below another one, which `chdir` reaches by its path and which does
-- not end with a space, goes there, and then by ".." once more from there: so it ends up
-- where ".." leads from the directory above, not in that directory.
pub cd-parent :
    (h : Libc) (s : Session) (p name q : List ℕ)
    → s.cwd ≡ p ++ (b'/' ∷ name)
    → length s.cwd < 1024
    → LacksByte b'/' name
    → EndsPlain p
    → h.chdir_from s.cwd p ≡ some p
    → h.chdir_from p (b'.' ∷ b'.' ∷ []) ≡ some q
    → cd h (cd_line (b'.' ∷ b'.' ∷ [])) s ≡ some (true, record s { cwd = q })
cd-parent h s p name q e len l plain up up2 =
    cd_line-directory h (b'.' ∷ b'.' ∷ []) s (record s { cwd = q }) (omega arith)
      (change_directory-parent h s p name q e len l plain up up2)

chdir-empty : (h : Libc) (s : Session) → IsChdir h → chdir h [] s ≡ s
unfolding chdir
chdir-empty h s c = rw (chdir, c.empty s.cwd) refl

pub cd-home :
    (h : Libc) (s : Session) → IsChdir h → cd h (b'c' ∷ b'd' ∷ []) s ≡ some (true, go_home h s)
unfolding cd contains_command split_line before_char skip_spaces change_directory str_eq
cd-home h s c = ap (λ s'. some (true, s')) (chdir-empty h (go_home h s) c)
