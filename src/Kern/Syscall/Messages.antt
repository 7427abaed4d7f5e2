-- ===== src/Kern/Syscall/Messages.antt =====
-- 3-sched/kern/syscall.c: what a message does to its receiver, and that it is received once.
use sistemas_operativos_fiub.Common.{
  ℕ, ◌%◌, ◌≡◌, ◌∙◌, inl, inr, false, some, arith, ◌==◌, leb, update, Bool-cases,
}
use sistemas_operativos_fiub.Kern.Words.{pgsize, utop}
use sistemas_operativos_fiub.Kern.Env.{env_runnable}
use sistemas_operativos_fiub.Kern.Machine.{
  Machine, e_ipc_not_recv, Call, returns, fails, and_then, set_env,
}
use sistemas_operativos_fiub.Kern.Syscall.Envs.{target, with_curenv}
use sistemas_operativos_fiub.Kern.Syscall.Pages.{user_perm}
use sistemas_operativos_fiub.Kern.Syscall.Ipc.{
  set_ipc_perm, deliver, send_page, check_source, try_send, sys_ipc_try_send,
}
use sistemas_operativos_fiub.Kern.Syscall.SameIds.{
  and_then-returns, check_source-kern, SameIds, SameIds-trans, set_ipc_perm-SameIds,
  deliver-SameIds, send_page-SameIds, target-SameIds, target-machine, with_curenv-returns,
}

-- The receiver `dst` has the message of `sender`, waits no more and can be run, with 0 for the answer
-- of the call that it waited in.
pub record HasMessage (m2 : Machine) (dst sender value : ℕ) : Type 0 where
  pub closed : (m2.kern.envs dst).env_ipc_recving ≡ false
  pub content : (m2.kern.envs dst).env_ipc_value ≡ value
  pub from : (m2.kern.envs dst).env_ipc_from ≡ sender
  pub runnable : (m2.kern.envs dst).env_status ≡ env_runnable
  pub answer : (m2.kern.envs dst).env_tf.tf_regs.reg_eax ≡ 0

deliver-HasMessage :
    (m : Machine) (c dst value : ℕ)
    → HasMessage (deliver m c dst value) dst ((m.kern.envs c).env_id) value
unfolding deliver set_env update
deliver-HasMessage m c dst value = record {
  closed = ground arith;
  content = ground arith;
  from = ground arith;
  runnable = ground arith;
  answer = ground arith;
}

-- What a send that returns leaves.
abbrev Received : Machine → ℕ → ℕ → ℕ → Machine → Type 0
Received m c dst value m2 =
    SameIds m.kern m2.kern × HasMessage m2 dst ((m.kern.envs c).env_id) value

delivered :
    (m m1 m2 : Machine) (c dst value r : ℕ)
    → SameIds m.kern m1.kern
    → ◌≡◌ {A = Call ℕ} (returns 0 (deliver m1 c dst value)) (returns r m2)
    → Received m c dst value m2
delivered m m1 m2 c dst value r s e =
    let last : m2 ≡ deliver m1 c dst value = ground (arith, e) in
    rw last (
      SameIds-trans m.kern m1.kern (deliver m1 c dst value).kern s (deliver-SameIds m1 c dst value),
      rw (← s.ids c) (deliver-HasMessage m1 c dst value),
    )

try_send-Received :
    (m m2 : Machine) (c dst value srcva perm r : ℕ)
    → try_send m c dst value srcva perm ≡ returns r m2
    → Received m c dst value m2
unfolding try_send
try_send-Received m m2 c dst value srcva perm r e =
    elim (Bool-cases ((m.kern.envs dst).env_ipc_recving)) [
      | inr closed ↦ absurd (ground (arith, e, closed))
      | inl waiting ↦ elim (Bool-cases (leb utop srcva)) [
        | inl word ↦
            delivered m (set_ipc_perm m dst 0) m2 c dst value r (set_ipc_perm-SameIds m dst 0)
              (ground (arith, e, waiting, word))
        | inr page ↦ elim (Bool-cases (srcva % pgsize == 0)) [
          | inr unaligned ↦ absurd (ground (arith, e, waiting, page, unaligned))
          | inl aligned ↦ with_page (ground (arith, e, waiting, page, aligned))
        ]
      ]
    ]
  where
    with_page :
        and_then (check_source m c srcva perm) (λ _ m1.
          and_then
            (send_page m1 c dst srcva (user_perm perm))
            (λ _ m3. returns 0 (deliver m3 c dst value)))
          ≡ returns r m2
        → Received m c dst value m2
    with_page e =
        let (_, m1, check, e1) = and_then-returns _ _ r m2 e in
        let (_, m3, sent, e2) = and_then-returns _ _ r m2 e1 in
        let same = check_source-kern m c srcva perm m1 check in
        delivered m m3 m2 c dst value r
          (send_page-SameIds m c dst srcva (user_perm perm) m3 (rw same at sent)) e2

send-refused :
    (m : Machine) (envid dst c value srcva perm : ℕ)
    → target m envid false ≡ returns dst m
    → m.kern.curenv ≡ some c
    → (m.kern.envs dst).env_ipc_recving ≡ false
    → sys_ipc_try_send m envid value srcva perm ≡ fails e_ipc_not_recv m
unfolding sys_ipc_try_send and_then with_curenv try_send
send-refused m envid dst c value srcva perm t current closed = ground (arith, t, current, closed)

-- Where a send returns, the environment that the id names has the message: its value, the id of the
-- caller, and the answer 0; it waits no more and can be run. The same message sent once more, or any
-- other one to the id, fails with -E_IPC_NOT_RECV and changes nothing; and so it is in every later
-- machine in which this environment still does not wait, for every caller and every id that leads to
-- it.
pub sys_ipc_try_send-once :
    (m m2 : Machine) (envid value srcva perm r : ℕ)
    → sys_ipc_try_send m envid value srcva perm ≡ returns r m2
    → (dst : ℕ) × (c : ℕ) × (target m envid false ≡ returns dst m)
      × (m.kern.curenv ≡ some c)
      × HasMessage m2 dst ((m.kern.envs c).env_id) value
      × ((value2 srcva2 perm2 : ℕ)
          → sys_ipc_try_send m2 envid value2 srcva2 perm2 ≡ fails e_ipc_not_recv m2)
      × ((m3 : Machine) (envid2 c2 value2 srcva2 perm2 : ℕ)
          → (m3.kern.envs dst).env_ipc_recving ≡ (m2.kern.envs dst).env_ipc_recving
          → m3.kern.curenv ≡ some c2
          → target m3 envid2 false ≡ returns dst m3
          → sys_ipc_try_send m3 envid2 value2 srcva2 perm2 ≡ fails e_ipc_not_recv m3)
unfolding sys_ipc_try_send
sys_ipc_try_send-once m m2 envid value srcva perm r e =
    let (dst, m1, found, e1) = and_then-returns _ _ r m2 e in
    let same = target-machine m envid dst false m1 found in
    let (c, current, e2) = with_curenv-returns m _ r m2 (rw same at e1) in
    let (ids, got) = try_send-Received m m2 c dst value srcva perm r e2 in
    let again = target-SameIds m m2 envid dst ids (rw same at found) in
    (
      dst,
      c,
      rw same at found,
      current,
      got,
      λ value2 srcva2 perm2.
          send-refused m2 envid dst c value2 srcva2 perm2 again (ids.current ∙ current) got.closed,
      λ m3 envid2 c2 value2 srcva2 perm2 still cur t.
          send-refused m3 envid2 dst c2 value2 srcva2 perm2 t cur (still ∙ got.closed),
    )
