-- ===== src/Writer/Tests.antt =====
-- Concrete runs of writer.go, and its theorems at a writer that opens over three rows of a previous run.
use icelake.Prelude.{◌↔◌, ◌≤◌, ◌≡◌, refl, pos, true, false, none, [], ◌∷◌, length, arith}
use icelake.Errdef.{
  value, encoding_error, err, ok, err_closed, err_staging_full, err_table_in_use, batch_error,
}
use icelake.Canon.Tests.{all_code, table, shape, row}
use icelake.Canon.Record.{Row}
use icelake.Poison.Utf8.{first_byte, next_state, at_start, run, valid_string}
use icelake.Poison.{
  pow10, within, fits_precision, check_len, check_string, check_binary, check_decimal, check_kind,
  check_cell, check_cells, check_poison,
}
use icelake.Staging.Index.{claim, pending_batches, group_of, sealed_only, unsealed_only, drop_group}
use icelake.Staging.Index.Tests.{table_t, mixed, mixed_index, mixed_scanned}
use icelake.Staging.Store.{TableId}
use icelake.Staging.Store.Tests.{store_code}
use icelake.Flush.Worker.{Job, enqueue, finish}
use icelake.Writer.{
  Shared, has_room, accept_batch, release, last_of, byte_sum, open_writer, replay_batch, replay,
  seal_batch, trigger, unqueued, remember, remember_batch, note_commit, cycle_ended, pending,
}
use icelake.Writer.Accepting.{
  Options, Readings, payload_of, payloads_of, total_of, append_rows, flush_rows, staged_batch,
  stage_batch, staged_row, stage, accepted_in, insert, insert_batch, tick, flush, close,
}
use icelake.Writer.Draining.{committed, land, set_aside, give_up}
use icelake.Writer.Whole.{IsWhole}
use icelake.Writer.Opened.{opened}
use icelake.Writer.One.{AsOne, insert_batch-one}
use icelake.Staging.Store.Related.{Ascends}
use icelake.Writer.Reached.{Step, Reached, opens, steps, inserted, flushed, landed, Reached-IsWhole}
use icelake.Writer.Bounded.{step-bounded}
use icelake.Writer.Registry
use icelake.Writer.Registry.{
  writer_of, is_live, put, drop_slot, attach, claim_table, detach, release_table, swap_claim,
  close_store, holders, leave, Process, started, claimed, swapped, opened_process, IsExclusive,
}
use icelake.Writer.Registry.Exclusive.{IsFree, Reached-IsExclusive}

unfoldable writer_code : Unit {0}
unfolding all_code store_code first_byte next_state at_start run valid_string pow10 within
    fits_precision check_len check_string check_binary check_decimal check_kind check_cell
    check_cells check_poison claim pending_batches group_of sealed_only unsealed_only drop_group
    enqueue finish has_room accept_batch release last_of byte_sum open_writer replay_batch replay
    seal_batch trigger unqueued remember remember_batch note_commit cycle_ended pending payload_of
    payloads_of total_of append_rows flush_rows staged_batch stage_batch staged_row stage
    accepted_in insert insert_batch tick flush close committed land set_aside give_up
writer_code = tt

unfoldable registry_code : Unit {0}
unfolding store_code is_live put drop_slot attach detach swap_claim close_store holders leave
registry_code = tt

-- At most four records.
abbrev opts : Options Row
opts = record {
  namespace = b'n' ∷ [];
  table = table;
  descriptor = shape;
  limits = record { max_records = 4; max_bytes = 1000 };
  settings = record { max_records = 100; max_bytes = 1000; floor = pos 0 };
  bind = ok;
  on_accept = none;
}

abbrev at : Readings
at = record { staged_at = pos 5000000; now = pos 1; sealed_at = pos 2 }

abbrev state_0 : Shared Row
state_0 = opened table_t (pos 0) mixed_index mixed

abbrev state_1 : Shared Row
state_1 = (insert opts false at row state_0).1

abbrev state_2 : Shared Row
state_2 = record state_1 { writer = (flush opts (pos 3) state_1.writer).1 }

-- The batch of the previous run that was sealed.
abbrev first_job : Job
first_job = record {
  batch = record {
    key = b'k' ∷ [];
    rows = record { id = 1; schema_fp = shape.fp; byte_len = 17 } ∷ [];
  };
  seq = 1;
  replayed = true;
  attempts = 0;
  attempted = false;
}

-- The batch of the flush.
abbrev second_job : Job
second_job = record {
  batch = record {
    key = [];
    rows =
        record { id = 0; schema_fp = shape.fp; byte_len = 17 }
        ∷ record { id = 2; schema_fp = shape.fp; byte_len = 17 }
        ∷ record { id = 3; schema_fp = shape.fp; byte_len = 17 }
        ∷ [];
  };
  seq = 2;
  replayed = false;
  attempts = 0;
  attempted = false;
}

abbrev state_3 : Shared Row
state_3 = land false false (pos 4) first_job state_2

replayed_0 : pending state_0.writer ≡ (3, 51)
unfolding writer_code
replayed_0 = refl

queued_2 : state_2.writer.worker.queue ≡ first_job ∷ second_job ∷ []
unfolding writer_code
queued_2 = refl

landed_3 : pending state_3.writer ≡ (3, 51)
unfolding writer_code
landed_3 = refl

full_1 : insert opts false at row state_1 ≡ (err err_staging_full, state_1)
unfolding writer_code
full_1 = refl

-- A record that lacks the required value.
refused_0 :
    insert_batch opts false at (row ∷ (none ∷ none ∷ none ∷ []) ∷ []) state_0
    ≡ (err (batch_error 1 (encoding_error value table (b'a' ∷ []) (pos 1))), state_0)
unfolding writer_code
refused_0 = refl

set_aside_3 :
    pending
      (set_aside false
        (pos 1)
        []
        (pos 4)
        first_job
        (record {
          namespace = [];
          table = [];
          batch_key = [];
          records = 1;
          cause = err_closed;
          attempts = 1;
          quarantined = false;
        })
        state_2).writer
    ≡ (3, 51)
unfolding writer_code
set_aside_3 = refl

closed_4 :
    insert opts false at row (record state_3 { writer = (close opts (pos 5) state_3.writer).1 })
    ≡ (err err_closed, record state_3 { writer = (close opts (pos 5) state_3.writer).1 })
unfolding writer_code
closed_4 = refl

mixed-Ascends : Ascends mixed.last_id mixed.staging
mixed-Ascends = ground arith

state_0-Reached : Reached opts state_0
state_0-Reached = opens (pos 0) mixed_index mixed mixed_scanned mixed-Ascends

state_2-Reached : Reached opts state_2
state_2-Reached =
    steps state_1 state_2 (steps state_0 state_1 state_0-Reached (inserted false at row state_0))
      (flushed (pos 3) state_1)

state_3-Step : Step opts state_2 state_3
state_3-Step = landed false (pos 4) first_job (second_job ∷ []) state_2 queued_2

Reached-IsWhole_example : IsWhole table_t state_3
Reached-IsWhole_example =
    Reached-IsWhole opts state_3 (steps state_2 state_3 state_2-Reached state_3-Step)

few_2 : length state_2.staging.staging ≤ 4
unfolding writer_code
few_2 = ground arith

step-bounded_example : length state_3.staging.staging ≤ 4
step-bounded_example = step-bounded opts state_2 state_3 state_2-Reached state_3-Step few_2

insert_batch-one_example :
    AsOne opts row state_0
      (insert_batch opts false at (row ∷ []) state_0)
      (insert opts false at row state_0)
insert_batch-one_example = insert_batch-one opts false at row state_0

-- A writer has opened.
abbrev claimed_process : Process
claimed_process = started table_t opened_process (claim_table table_t opened_process.registry)

claimed_at_work : claimed_process.at_work ≡ table_t ∷ []
unfolding registry_code
claimed_at_work = refl

claimed_once : 1 ≤ holders table_t claimed_process.at_work
unfolding registry_code
claimed_once = ground arith

abbrev writing : Process
writing = record {
  registry = (swap_claim (writer_of 1) table_t claimed_process.registry).1;
  at_work = claimed_process.at_work;
}

second_claim : claim_table table_t writing.registry ≡ (err err_table_in_use, writing.registry)
unfolding registry_code
second_claim = refl

claimed_again : (claim_table table_t (release_table table_t writing.registry)).0 ≡ ok tt
unfolding registry_code
claimed_again = refl

Reached-IsExclusive_example :
    IsExclusive writing
    × ((t : TableId) → ((claim_table t writing.registry).0 ≡ ok tt) ↔ IsFree t writing)
Reached-IsExclusive_example = Reached-IsExclusive writing (
    Registry.steps claimed_process writing
      (Registry.steps opened_process claimed_process Registry.opens
        (claimed table_t opened_process))
      (swapped 1 table_t claimed_process claimed_once))
