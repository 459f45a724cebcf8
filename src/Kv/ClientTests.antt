-- ===== src/Kv/ClientTests.antt =====
-- Client threads of p6/client.c on concrete requests and files.
use cs537_group_projects.Base.{
  update, ℕ, ◌+◌, ◌*◌, ◌/◌, ◌<◌, ◌≤◌, ◌≡◌, ◌≢◌, refl, [], ◌∷◌, none, some, arith, get_elem?,
}
use cs537_group_projects.Kv.Ring.{Desc, zero_desc}
use cs537_group_projects.Kv.Client.{
  Context, Request, finished, next_place, client_step, deliver, Client, Step, Reachable,
  start_client, desc_bytes, submit_one, complete_one, res_offset,
}
use cs537_group_projects.Kv.Client.Window.{Asks}
use cs537_group_projects.Kv.Client.Results.{client_results}
use cs537_group_projects.Kv.Client.Progress.{GoesOn, client_goes_on}
use cs537_group_projects.Kv.Client.Parts.{shm_size, start_threads, threads_apart}
use cs537_group_projects.Kv.Client.Input.{get_str, read_input_files}
use cs537_group_projects.Kv.Client.PastEnd.{IsRequest, read_input_files-past_end}

abbrev gets : ℕ → Request
gets j = record { k = j; v = 0; t = 1 }

-- A thread of three requests with a window of two, after its first submission.
abbrev begun : Client
begun = start_client 3 gets 2 640 (λ j. zero_desc)

abbrev run : Client → Client
run s = record {
  ctx = (client_step s.ctx s.place).0;
  place = (client_step s.ctx s.place).1;
  answers = s.answers;
}

abbrev given : Desc
given = record { req_type = 1; k = 0; v = 7; res_off = 640; ready = 1 }

abbrev replied : Client
replied = record {
  ctx = deliver (run begun).ctx ((run begun).ctx.sent 0) given;
  place = (run begun).place;
  answers = update (run begun).answers 0 (some given);
}

-- The second submission, the full window, and the first completion.
abbrev completed : Client
completed = run (run (run replied))

run-Reachable : {s : Client} → Reachable s → Reachable (run s)
run-Reachable {s = s} r = Reachable.after r (Step.runs s.ctx s.place s.answers)

replied-Reachable : Reachable replied
unfolding client_step submit_one start_client next_place
replied-Reachable =
    Reachable.after (run-Reachable (Reachable.at_start 3 gets 2 640 (λ j. zero_desc) (omega arith)))
      (Step.replies (run begun).ctx (run begun).place (run begun).answers 0 given (omega arith) refl
        refl)

completed-Reachable : Reachable completed
completed-Reachable = run-Reachable (run-Reachable (run-Reachable replied-Reachable))

client_results_example :
    (completed.ctx.last_submitted ≤ completed.ctx.last_completed + completed.ctx.win_size)
    × ((i j : ℕ)
        → completed.ctx.last_completed ≤ i
        → i < j
        → j < completed.ctx.last_submitted
        → (completed.ctx.sent i).res_off ≢ (completed.ctx.sent j).res_off)
    × ((j : ℕ)
        → j < completed.ctx.last_submitted
        → Asks completed.ctx.reqs completed.ctx.comp_off completed.ctx.win_size j
            (completed.ctx.sent j))
    × ((j : ℕ)
        → j < completed.ctx.last_completed
        → (d : Desc) × (completed.answers j ≡ some d)
          × (completed.ctx.res j ≡ record d { ready = 0 }))
    × (completed.place ≡ finished → completed.ctx.last_completed ≡ completed.ctx.num_reqs)
client_results_example = client_results completed-Reachable

first_result : (completed.ctx.res 0).v ≡ 7
unfolding client_step submit_one complete_one deliver update next_place res_offset start_client
first_result = refl

client_goes_on_example : GoesOn 3 replied.ctx replied.place
unfolding client_step submit_one deliver update start_client next_place
client_goes_on_example = client_goes_on replied-Reachable (λ h. (given, refl))

threads_apart_example :
    (c : Context) × (d : Context) × (get_elem? (start_threads 11 3 2 640 gets (λ j. zero_desc)) 0
      ≡ some c)
    × (get_elem? (start_threads 11 3 2 640 gets (λ j. zero_desc)) 2 ≡ some d)
    × (c.comp_off + c.win_size * desc_bytes ≤ d.comp_off)
    × (d.comp_off + d.win_size * desc_bytes ≤ shm_size 640 3 2)
    × ((k : ℕ) → c.reqs k ≡ gets (0 * (11 / 3) + k))
    × ((k : ℕ) → d.reqs k ≡ gets (2 * (11 / 3) + k))
    × (0 * (11 / 3) + c.num_reqs ≤ 2 * (11 / 3))
    × (2 * (11 / 3) + d.num_reqs ≤ 11)
threads_apart_example =
    threads_apart 11 3 2 640 gets (λ j. zero_desc) 0 2 (omega arith) (omega arith)

read_input_files-past_end_example :
    read_input_files (λ t. 5) gets [] ((get_str ∷ (49 ∷ []) ∷ []) ∷ []) ≡ none
read_input_files-past_end_example =
    read_input_files-past_end (λ t. 5) gets [] ((get_str ∷ (49 ∷ []) ∷ []) ∷ [])
      (IsRequest.gets (49 ∷ []) [], omega arith) (omega arith)
