-- ===== src/Patch/Params.antt =====
-- src/patch.c: `rs_patch_s_params`.
use librsync.Prelude.{ℕ, ◌+◌, ◌≤◌, ◌<◌, ◌≡◌, ◌≢◌, refl, sym, ap, subst, ◌∙◌, arith}
use librsync.Prelude.{ltb, ◌==◌, Bool-cases, inl, inr, tests}
use librsync.Prelude.{List, [], ◌++◌, length, take, drop, All, IsByte, length-drop}
use librsync.Prelude.{le→leb, lt→leb, lt→ltb, ne→==, ==→eq, ==_false→ne, some, dec_le}
use librsync.Prelude.Slices.{drop-drop}
use librsync.Result.{input_ended, is_done}
use librsync.Io.{Io, assert_that, assert_that-true}
use librsync.Scoop.{scoop_readahead}
use librsync.Scoop.Queue.{input, IsValid, outputs}
use librsync.Scoop.Readahead.{peek-done, peek_short, ReadAhead, scoop_readahead-ReadAhead}
use librsync.Netint.{suck_netint}
use librsync.Netint.Bytes.{from_big_endian}
use librsync.Netint.RoundTrip.{suck_netint-Sucked, drop-All}
use librsync.Prototab.{Entry}
use librsync.Patch.{s_params, s_run, PatchJob, go_to}
use librsync.Patch.{patch_take_params, patch_s_params}
use librsync.Patch.Spec.{commands_spec, entry_spec, run_spec, param1_spec, param2_spec}
use librsync.Patch.Meaning.{
  rank, state_spec, statefn_spec, StateOk, PatchValid, StepOk, queue-Front,
}
use librsync.Patch.Step.{not_done, short_read, step_running}
use librsync.Patch.Read.{run_spec-param2}

record TookParams (j j' : PatchJob) : Type 0 where
  rest_of_input : input j'.io ≡ drop (j.vars.cmd.len_1 + j.vars.cmd.len_2) (input j.io)
  same_outputs : outputs j'.io ≡ outputs j.io
  still_valid : IsValid j'.io
  same_cmd : j'.vars.cmd ≡ j.vars.cmd
  first : j'.vars.param1 ≡ from_big_endian 0 (take j.vars.cmd.len_1 (input j.io))
  second :
      j.vars.cmd.len_2 ≢ 0
      → j'.vars.param2
        ≡ from_big_endian 0 (take j.vars.cmd.len_2 (drop j.vars.cmd.len_1 (input j.io)))

-- A number that is there is read, and the assertion after it holds.
suck_there :
    (len : ℕ) (io : Io)
    → IsValid io
    → All IsByte (input io)
    → 0 < len
    → len ≤ 8
    → len ≤ length (input io)
    → let (r, val, io') = suck_netint len io in
      (assert_that (is_done r) io' ≡ io')
      × (val ≡ from_big_endian 0 (take len (input io)))
      × (input io' ≡ drop len (input io))
      × IsValid io'
      × (outputs io' ≡ outputs io)
suck_there len io v bytes pos small enough =
    let s = suck_netint-Sucked len io v pos small bytes in
    (
      assert_that-true _ _
          (ap is_done (s.answer ∙ ap (λ t. t.0) (peek-done len (input io) io.eof_in enough))),
      s.value enough,
      s.rest_of_input ∙ rw (le→leb len _ enough),
      s.still_valid,
      s.same_outputs,
    )

patch_take_params-TookParams :
    (j : PatchJob)
    → PatchValid j
    → StateOk s_params j.vars
    → j.vars.cmd.len_1 + j.vars.cmd.len_2 ≤ length (input j.io)
    → TookParams j (patch_take_params j)
unfolding patch_take_params
patch_take_params-TookParams j v (le1, le2, pos1, k) enough =
    let len_1 = j.vars.cmd.len_1 in
    let len_2 = j.vars.cmd.len_2 in
    let (ok1, val1, rest1, valid1, out1) =
      suck_there len_1 j.io v.io_valid v.bytes pos1 le1 (omega arith) in
    rw ok1 (elim (Bool-cases (len_2 == 0)) [
      | inl none_2 ↦ rw none_2 (record {
        rest_of_input = rest1 ∙ ap (λ n. drop n (input j.io)) (omega tests);
        same_outputs = out1;
        still_valid = valid1;
        same_cmd = refl;
        first = val1;
        second = λ ne. absurd (ne (==→eq _ _ none_2));
      })
      | inr some_2 ↦
          let io1 = (suck_netint len_1 j.io).2 in
          let bytes1 : All IsByte (input io1) =
            subst (All IsByte) (sym rest1) (drop-All IsByte len_1 (input j.io) v.bytes) in
          let (ok2, val2, rest2, valid2, out2) =
            suck_there len_2 io1 valid1 bytes1 (omega tests) le2
              (rw rest1 (omega (arith, length-drop len_1 (input j.io)))) in
          rw (some_2, ok2)
            (record {
              rest_of_input = rest2 ∙ ap (drop len_2) rest1 ∙ drop-drop len_1 len_2 (input j.io);
              same_outputs = out2 ∙ out1;
              still_valid = valid2;
              same_cmd = refl;
              first = val1;
              second = λ ne. val2 ∙ ap (λ q. from_big_endian 0 (take len_2 q)) rest1;
            })
    ])

module _ (basis : List ℕ) where
  -- The parameters lie in the front of the queue.
  entry_spec-front :
      (e : Entry) (queue future : List ℕ)
      → 0 < e.len_1
      → e.len_1 + e.len_2 ≤ length queue
      → entry_spec basis (commands_spec basis) e (queue ++ future)
        ≡ run_spec basis
            (commands_spec basis)
            e.kind
            (from_big_endian 0 (take e.len_1 queue))
            (from_big_endian 0 (take e.len_2 (drop e.len_1 queue)))
            (drop (e.len_1 + e.len_2) queue ++ future)
  unfolding entry_spec param1_spec param2_spec
  entry_spec-front e queue future pos h =
      let f1 = queue-Front e.len_1 queue future (omega arith) in
      let f = queue-Front (e.len_1 + e.len_2) queue future h in
      let f2 =
        queue-Front e.len_2 (drop e.len_1 queue) future
          (omega (arith, length-drop e.len_1 queue)) in
      rw (
        f.enough,
        ne→== e.len_1 0 (omega arith),
        f1.front_take,
        f1.front_drop,
        f2.front_take,
        f.front_drop,
      )

  entry_spec_short :
      (e : Entry) (queue : List ℕ)
      → length queue < e.len_1 + e.len_2
      → entry_spec basis (commands_spec basis) e queue ≡ ([], input_ended)
  unfolding entry_spec
  entry_spec_short e queue h = rw (lt→leb _ (length queue) h)

  pub patch_s_params-StepOk :
      (j : PatchJob)
      → PatchValid j
      → j.io.copy_len ≡ 0
      → j.statefn ≡ some s_params
      → StateOk s_params j.vars
      → StepOk basis j (patch_s_params j).0 (patch_s_params j).1
  unfolding patch_s_params go_to statefn_spec state_spec
  patch_s_params-StepOk j v idle at (le1, le2, pos1, k) =
      rw (assert_that-true (ltb 0 len) j.io (lt→ltb 0 len (omega arith)))
        (elim (dec_le len (length (input j.io))) [
          | yes enough ↦
              rw (ap (λ t. t.0) (h.answer ∙ peek-done len (input j.io) j.io.eof_in enough)) (
                let t = took enough in
                step_running basis j (record j2 { statefn = some s_run }) len v idle enough
                  (t.rest_of_input ∙ ap (drop len) h.same_input) (t.same_outputs ∙ h.same_outputs)
                  t.still_valid tt (omega (arith, ap rank at))
                  (λ future.
                    ap (λ f. statefn_spec basis f j.vars (input j.io ++ future)) at
                    ∙ entry_spec-front j.vars.cmd (input j.io) future pos1 enough
                    ∙ same_run t (drop len (input j.io) ++ future)))
          | no short ↦
              rw
                (
                  ap (λ t. t.0) (h.answer ∙ peek_short len (input j.io) j.io.eof_in (omega arith)),
                  not_done j.io.eof_in,
                )
                (short_read basis j len (scoop_readahead len j.io).2 v idle (omega arith)
                  h.same_input h.same_outputs h.still_valid
                  (λ queue e.
                    ap (λ f. statefn_spec basis f j.vars queue) at
                    ∙ entry_spec_short j.vars.cmd queue e))
        ])
    where
      len : ℕ
      len = j.vars.cmd.len_1 + j.vars.cmd.len_2

      h : ReadAhead len j.io (scoop_readahead len j.io)
      h = scoop_readahead-ReadAhead len j.io v.io_valid (omega arith) (omega arith)

      j1 : PatchJob
      j1 = record j { io = (scoop_readahead len j.io).2 }

      j2 : PatchJob
      j2 = patch_take_params j1

      took : len ≤ length (input j.io) → TookParams j1 j2
      took enough =
          patch_take_params-TookParams j1
            (record {
              io_valid = h.still_valid;
              no_commands = ap (λ o. o.3) h.same_outputs ∙ v.no_commands;
              bytes = subst (All IsByte) (sym h.same_input) v.bytes;
              state_ok = v.state_ok;
            })
            (le1, le2, pos1, k) (rw h.same_input enough)

      second_same :
          TookParams j1 j2
          → (queue : List ℕ) (a : ℕ)
          → run_spec basis
              (commands_spec basis)
              j.vars.cmd.kind
              a
              (from_big_endian 0 (take j.vars.cmd.len_2 (drop j.vars.cmd.len_1 (input j.io))))
              queue
            ≡ run_spec basis (commands_spec basis) j.vars.cmd.kind a j2.vars.param2 queue
      second_same t queue a = elim (Bool-cases (j.vars.cmd.len_2 == 0)) [
        | inl none_2 ↦ run_spec-param2 basis j.vars.cmd.kind a _ _ queue (k (==→eq _ _ none_2))
        | inr some_2 ↦
            ap (λ b. run_spec basis (commands_spec basis) j.vars.cmd.kind a b queue)
              (ap (λ q. from_big_endian 0 (take j.vars.cmd.len_2 (drop j.vars.cmd.len_1 q)))
                  (sym h.same_input)
                ∙ sym (t.second (==_false→ne _ _ some_2)))
      ]

      same_run :
          TookParams j1 j2
          → (queue : List ℕ)
          → run_spec basis
              (commands_spec basis)
              j.vars.cmd.kind
              (from_big_endian 0 (take j.vars.cmd.len_1 (input j.io)))
              (from_big_endian 0 (take j.vars.cmd.len_2 (drop j.vars.cmd.len_1 (input j.io))))
              queue
            ≡ run_spec basis
                (commands_spec basis)
                j2.vars.cmd.kind
                j2.vars.param1
                j2.vars.param2
                queue
      same_run t queue =
          second_same t queue _
          ∙ ap (λ a. run_spec basis (commands_spec basis) j.vars.cmd.kind a j2.vars.param2 queue)
              (ap (λ q. from_big_endian 0 (take j.vars.cmd.len_1 q)) (sym h.same_input)
                ∙ sym t.first)
          ∙ ap
              (λ c.
                run_spec basis (commands_spec basis) (Entry.kind c) j2.vars.param1 j2.vars.param2
                  queue)
              (sym t.same_cmd)
