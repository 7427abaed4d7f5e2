-- ===== src/Shell/Exec/Descriptors.antt =====
-- 2-shell/exec.c: tables of descriptors with nothing open but 0, 1 and 2.
use sistemas_operativos_fiub.Common.{
  ◌≡◌, refl, ◌<◌, true, none, some, List, arith, ◌==◌, if◌then◌else◌, update, first-eq-some,
  fun_ext,
}
use sistemas_operativos_fiub.Shell.Exec.{
  Object, read_end, write_end, Fds, System, Side, is_closed, lowest, new_fd, dup2, close, new_pipe,
  left_fds, right_fds,
}

abbrev pub stdio : Object → Object → Object → Fds
stdio i o e n =
    if n == 0 then some i else if n == 1 then some o else if n == 2 then some e else none

lowest-stdio : (s : System) (i o e : Object) → 4 < s.descriptors → lowest s (stdio i o e) ≡ some 3
unfolding lowest
lowest-stdio s i o e h =
    first-eq-some (λ n. is_closed (stdio i o e n)) s.descriptors 0 3
      (record {
        passes = refl;
        above = omega arith;
        below = omega arith;
        least = λ j low high. ground arith;
      })

lowest-three :
    (s : System) (i o e x : Object)
    → 4 < s.descriptors
    → lowest s (update (stdio i o e) 3 (some x)) ≡ some 4
unfolding lowest update
lowest-three s i o e x h =
    first-eq-some (λ n. is_closed (update (stdio i o e) 3 (some x) n)) s.descriptors 0 4
      (record {
        passes = refl;
        above = omega arith;
        below = omega arith;
        least = λ j low high. ground arith;
      })

pub new_fd-stdio :
    (s : System) (i o e x : Object)
    → 4 < s.descriptors
    → new_fd s (stdio i o e) x ≡ some (3, update (stdio i o e) 3 (some x))
unfolding new_fd
new_fd-stdio s i o e x h = rw (new_fd, lowest-stdio s i o e h) refl

pub new_pipe-stdio :
    (s : System) (place : List Side) (i o e : Object)
    → 4 < s.descriptors
    → s.pipes place ≡ true
    → new_pipe s place (stdio i o e)
      ≡ some
          (3, 4, update (update (stdio i o e) 3 (some (read_end place))) 4 (some (write_end place)))
unfolding new_pipe new_fd
new_pipe-stdio s place i o e h ok =
    rw (ok, new_fd, lowest-stdio s i o e h, lowest-three s i o e (read_end place) h) refl

pub left_fds-stdio :
    (i o e r w : Object)
    → left_fds 3 4 (update (update (stdio i o e) 3 (some r)) 4 (some w)) ≡ stdio i w e
unfolding left_fds dup2 close update
left_fds-stdio i o e r w = fun_ext λ n. ground arith

pub right_fds-stdio :
    (i o e r w : Object)
    → right_fds 3 4 (update (update (stdio i o e) 3 (some r)) 4 (some w)) ≡ stdio r o e
unfolding right_fds dup2 close update
right_fds-stdio i o e r w = fun_ext λ n. ground arith

pub parent_fds-stdio :
    (i o e r w : Object)
    → close 4 (close 3 (update (update (stdio i o e) 3 (some r)) 4 (some w))) ≡ stdio i o e
unfolding close update
parent_fds-stdio i o e r w = fun_ext λ n. ground arith
