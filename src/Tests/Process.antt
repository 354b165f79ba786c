-- ===== src/Tests/Process.antt =====
-- The child processes of src/process.rs on a Windows in small.
use enjambre_worker.Prelude.{ℕ, ◌≡◌, ◌≢◌, refl, true, false, List, [], ◌∷◌, none, some, All, arith}
use enjambre_worker.Prelude.Text.{Text, codes, same_text}
use enjambre_worker.Prelude.Decimal.{to_decimal}
use enjambre_worker.Process.{
  LlamaProcess, Spawned, ok, job_name, spawn, drop, cmd_line, start, open_std, open_log,
  after_create, assign, close_std,
}
use enjambre_worker.Process.System.{closed, job}
use enjambre_worker.Process.Kernel.{
  Kernel, kernel, view, kernel_opens, kernel_kills, handle, other_handle,
}
use enjambre_worker.Process.Handles.{spawn-handle, left}
use enjambre_worker.Process.Jobs.{drop_only_child, drop_second_child}
use enjambre_worker.Process.CommandLine.{argv, argv-cmd_line, IsArgument}

abbrev rpc_program : Text
rpc_program = codes "C:\\Users\\Ana Ruiz\\ggml-rpc-server.exe"

abbrev rpc_args : List Text
rpc_args = codes "--port" ∷ codes "8090" ∷ []

abbrev booted : Kernel
booted = record {
  next = 0;
  slots = λ h. closed;
  limits = λ name. [];
  in_job = λ name pid. false;
  alive = λ pid. false;
}

-- After the start of the RPC server, and after that of llama-server.
abbrev one_child : Spawned × Kernel
one_child = spawn kernel rpc_program rpc_args none booted

abbrev two_children : Spawned × Kernel
two_children = spawn kernel rpc_program rpc_args (some (codes "llama.log")) one_child.1

abbrev first_child : LlamaProcess
first_child = record { process_handle = 3; job_handle = 1; pid = 3 }

abbrev second_child : LlamaProcess
second_child = record { process_handle = 8; job_handle = 5; pid = 8 }

one_started : one_child ≡ (ok first_child, one_child.1)
unfolding spawn start open_std open_log after_create assign close_std
one_started = refl

two_started : two_children ≡ (ok second_child, two_children.1)
unfolding spawn start open_std open_log after_create assign close_std
two_started = refl

job_is_open : handle one_child.1 1 ≡ job (job_name kernel)
unfolding spawn start open_std open_log after_create assign close_std job_name
job_is_open = refl

spawn-handle_example :
    handle one_child.1 3 ≡ left kernel view kernel_opens one_child.0 (handle booted 3) 3
spawn-handle_example = spawn-handle kernel view kernel_opens rpc_program rpc_args none booted 3

none_open : (h : ℕ) → handle booted h ≢ job (job_name kernel)
none_open h e = ground arith

drop_only_child_example : (drop kernel first_child one_child.1).alive 3 ≡ false
drop_only_child_example =
    drop_only_child kernel view kernel_opens kernel_kills rpc_program rpc_args none booted
      one_child.1 first_child one_started none_open

drop_second_child_example :
    (drop kernel second_child two_children.1).alive 8 ≡ two_children.1.alive 8
drop_second_child_example =
    drop_second_child kernel view kernel_opens kernel_kills rpc_program rpc_args
      (some (codes "llama.log")) one_child.1 two_children.1 second_child two_started 1 job_is_open 8

-- The second child runs behind its drop.
second_child_survives : (drop kernel second_child two_children.1).alive 8 ≡ true
unfolding spawn start open_std open_log after_create assign close_std drop other_handle job_name
    same_text to_decimal
second_child_survives = refl

program_IsArgument : IsArgument rpc_program
program_IsArgument = ground arith

args_IsArgument : All IsArgument rpc_args
args_IsArgument = ground arith

argv-cmd_line_example : argv (cmd_line rpc_program rpc_args) ≡ rpc_program ∷ rpc_args
argv-cmd_line_example = argv-cmd_line rpc_program rpc_args program_IsArgument args_IsArgument
