-- ===== src/Process/Kernel.antt =====
-- A Windows in small that keeps the laws on which src/process.rs relies.
use enjambre_worker.Prelude.{
  ℕ, zero, suc, ◌<◌, ◌≤◌, ◌≡◌, ◌≢◌, refl, sym, ◌∙◌, ◌↔◌, Bool, true, false, not, ◌&&◌, ◌||◌, some,
  ltb, List, any, ◌==◌, if◌then◌else◌, arith, Bool-cases, inl, inr, ap,
}
use enjambre_worker.Prelude.Text.{Text, same_text, same_text_iff, same_text_refl}
use enjambre_worker.Process.{Limit, Windows}
use enjambre_worker.Process.System.{
  Handle, closed, job, process, thread, file, View, OpensHandles, KillsOnClose, is_kill,
}

pub record Kernel : Type 0 where
  pub next : ℕ
  pub slots : ℕ → Handle
  pub in_job : Text → ℕ → Bool
  pub limits : Text → List Limit
  pub alive : ℕ → Bool

abbrev pub put {ℓ} : {A : Type ℓ} → (ℕ → A) → ℕ → A → ℕ → A
put f h v j = if j == h then v else f j

-- Handles are numbered from 1 on.
abbrev pub handle : Kernel → ℕ → Handle
handle k h = if (h == 0) || ltb k.next h then closed else k.slots h

abbrev pub open_handle : Handle → Kernel → ℕ × Kernel
open_handle v k = (suc k.next, record k { next = suc k.next; slots = put k.slots (suc k.next) v })

abbrev pub is_job : Text → Handle → Bool
is_job name (job n) = same_text n name
is_job name _ = false

-- Whether a handle up to `n` other than `h` is one of the job.
unfoldable pub other_handle : Kernel → Text → ℕ → ℕ → Bool
other_handle k name h zero = false
other_handle k name h (suc n) =
    (not (suc n == h) && is_job name (handle k (suc n))) || other_handle k name h n

abbrev pub after_close : Kernel → Handle → ℕ → ℕ → Bool
after_close k (job name) h pid =
    if other_handle k name h k.next || not (any is_kill (k.limits name))
    then k.alive pid
    else k.alive pid && not (k.in_job name pid)
after_close k _ h pid = k.alive pid

abbrev pub join : Handle → Handle → Kernel → Bool × Kernel
join (job name) (process pid) k =
    (true, record k { in_job = λ n p. (same_text n name && (p == pid)) || k.in_job n p })
join _ _ k = (false, k)

abbrev pub limit : Handle → List Limit → Kernel → Bool × Kernel
limit (job name) flags k =
    (true, record k { limits = λ n. if same_text n name then flags else k.limits n })
limit _ flags k = (false, k)

abbrev pub kernel : Windows
kernel = record {
  State = Kernel;
  process_id = 1000;
  create_job_object = λ name k. open_handle (job name) k;
  set_information = λ h flags k. limit (handle k h) flags k;
  create_file = λ path k. open_handle (file path) k;
  create_process = λ program line si k. (
    some (record {
      process_handle = suc k.next;
      thread_handle = suc (suc k.next);
      process_id = suc k.next;
    }),
    record k {
      next = suc (suc k.next);
      slots = put (put k.slots (suc k.next) (process (suc k.next))) (suc (suc k.next)) thread;
      alive = put k.alive (suc k.next) true;
    },
  );
  assign_process = λ j p k. join (handle k j) (handle k p) k;
  get_exit_code = λ k h. some 0;
  close_handle =
      λ h k. record k { slots = put k.slots h closed; alive = after_close k (handle k h) h };
}

abbrev pub view : View kernel
view = record {
  handle = handle;
  member = λ k name pid. k.in_job name pid;
  limits = λ k name. k.limits name;
  runs = λ k pid. k.alive pid;
  invalid_handle = 0;
}

join-handle : (a b : Handle) (k : Kernel) (h : ℕ) → handle (join a b k).1 h ≡ handle k h
join-handle (job name) (process pid) k h = refl
join-handle (job name) closed k h = refl
join-handle (job name) (job n) k h = refl
join-handle (job name) thread k h = refl
join-handle (job name) (file p) k h = refl
join-handle closed b k h = refl
join-handle (process pid) b k h = refl
join-handle thread b k h = refl
join-handle (file p) b k h = refl

limit-handle :
    (a : Handle) (flags : List Limit) (k : Kernel) (h : ℕ)
    → handle (limit a flags k).1 h ≡ handle k h
limit-handle (job name) flags k h = refl
limit-handle closed flags k h = refl
limit-handle (process pid) flags k h = refl
limit-handle thread flags k h = refl
limit-handle (file p) flags k h = refl

join-limits : (a b : Handle) (k : Kernel) (name : Text) → (join a b k).1.limits name ≡ k.limits name
join-limits (job n) (process pid) k name = refl
join-limits (job n) closed k name = refl
join-limits (job n) (job m) k name = refl
join-limits (job n) thread k name = refl
join-limits (job n) (file p) k name = refl
join-limits closed b k name = refl
join-limits (process pid) b k name = refl
join-limits thread b k name = refl
join-limits (file p) b k name = refl

pub kernel_opens : OpensHandles kernel view
kernel_opens = record {
  null_closed = λ s. refl;
  invalid_closed = λ s. refl;
  job_fresh = λ name s. ground arith;
  job_opened = λ name s h. ground arith;
  information_set = λ j flags s h. limit-handle (handle s j) flags s h;
  file_fresh = λ path s. ground arith;
  file_opened = λ path s h. ground arith;
  process_failed = λ program line si s h e. cc;
  process_fresh = λ program line si s pi e. ground arith;
  process_opened = λ program line si s pi h e. ground arith;
  assigned = λ j p s h. join-handle (handle s j) (handle s p) s h;
  handle_closed = λ j s h. ground arith;
}

is_job_iff : (name : Text) (v : Handle) → (is_job name v ≡ true) ↔ (v ≡ job name)
is_job_iff name closed = ((λ e. cc), (λ e. cc))
is_job_iff name (job n) = ground (arith, same_text_iff n name)
is_job_iff name (process pid) = ((λ e. cc), (λ e. cc))
is_job_iff name thread = ((λ e. cc), (λ e. cc))
is_job_iff name (file path) = ((λ e. cc), (λ e. cc))

other_handle-true :
    (k : Kernel) (name : Text) (h j n : ℕ)
    → 0 < j
    → j ≤ n
    → handle k j ≡ job name
    → j ≢ h
    → other_handle k name h n ≡ true
unfolding other_handle
other_handle-true k name h j zero p l e ne = absurd (omega arith)
other_handle-true k name h j (suc n) p l e ne = elim (Bool-cases (j == suc n)) [
  | inl y ↦
      let same : j ≡ suc n = ground arith in
      let found : is_job name (handle k (suc n)) ≡ true =
        (is_job_iff name (handle k (suc n))).1 (ap (handle k) (sym same) ∙ e) in
      let off : (suc n == h) ≡ false = ground (arith, same, ne) in rw (off, found) refl
  | inr other ↦
      let rest = other_handle-true k name h j n p (ground arith) e ne in ground (arith, rest)
]

other_handle-false :
    (k : Kernel) (name : Text) (h n : ℕ)
    → ((j : ℕ) → j ≢ h → handle k j ≢ job name)
    → other_handle k name h n ≡ false
unfolding other_handle
other_handle-false k name h zero e = refl
other_handle-false k name h (suc n) e =
    ground (arith, e (suc n), other_handle-false k name h n e, is_job_iff name (handle k (suc n)))

open_handles : (k : Kernel) (j : ℕ) (name : Text) → handle k j ≡ job name → (0 < j) × (j ≤ k.next)
open_handles k j name e = ground arith

after_close_other :
    (k : Kernel) (v : Handle) (h pid : ℕ)
    → ((name : Text) → v ≢ job name)
    → after_close k v h pid ≡ k.alive pid
after_close_other k closed h pid n = refl
after_close_other k (job name) h pid n = absurd (n name refl)
after_close_other k (process p) h pid n = refl
after_close_other k thread h pid n = refl
after_close_other k (file path) h pid n = refl

pub kernel_kills : KillsOnClose kernel view
kernel_kills = record {
  joined = λ j p s name pid ej ep y. rw (ej, ep) (ground (arith, same_text_refl name));
  limited = λ j flags s name ej y. rw ej (rw (same_text_refl name) refl);
  file_limits = λ path s name. refl;
  process_limits = λ program line si s name. refl;
  assign_limits = λ j p s name. join-limits (handle s j) (handle s p) s name;
  close_limits = λ h s name. refl;
  stays = λ h s name pid m. m;
  killed = λ h s name pid eh none_other lim m.
      rw eh (rw (other_handle-false s name h s.next none_other) (ground (arith, m, lim)));
  shared = λ h j s name pid eh ej ne. rw eh (
      rw
        (other_handle-true s name h j s.next (open_handles s j name ej).0
          (open_handles s j name ej).1 ej (λ e. ne (sym e)))
        refl);
  unrelated = λ h s pid n. after_close_other s (handle s h) h pid n;
}
