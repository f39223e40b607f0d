-- ===== src/Hislip/InstrumentTests.antt =====
-- The instrument behind HiSLIP on single commands.
use ugpibd.Prelude.{ℕ, ◌≡◌, refl, ◌⊎◌, ◌&&◌, ◌||◌, true, false, none, some, List, [], ◌∷◌}
use ugpibd.Prelude.Results.{ok}
use ugpibd.Hislip.Sync.{Execution}
use ugpibd.Hislip.Instrument.{Bus, execute, finish}
use ugpibd.Hislip.Requests.{had_reading, has_output, execute-reading, polled_request_reported}
use ugpibd.Hislip.Sources.{IsPolled, IsOwn, service_request_source}

abbrev command : List ℕ
command = b'*' ∷ b'T' ∷ b'S' ∷ b'T' ∷ []

abbrev answer : List ℕ
answer = b'0' ∷ []

-- A device that asks for service with output pending.
abbrev asking : Bus
asking = record {
  takes_write = true;
  status = some 0x50;
  asserted_before = some true;
  reply = some (answer, true);
  fired = false;
  asserted_after = none;
}

-- A device that asks for service by its output.
abbrev answering : Bus
answering = record {
  takes_write = true;
  status = none;
  asserted_before = some false;
  reply = some (answer, true);
  fired = true;
  asserted_after = some false;
}

abbrev with_request : Execution
with_request = record { reply = some answer; service_request = some 0x50 }

execute-reading_example :
    had_reading (execute asking command false).1 ≡ true && (false || has_output (some 0x50))
execute-reading_example = execute-reading asking command false

asking_runs : (execute asking command false).0 ≡ ok with_request
unfolding execute finish
asking_runs = refl

polled_request_reported_example : with_request.service_request ≡ some 0x50
polled_request_reported_example =
    polled_request_reported asking command false 0x50 with_request refl refl
      (unfold execute finish in refl) asking_runs

answering_runs : (execute answering command true).0 ≡ ok with_request
unfolding execute finish
answering_runs = refl

service_request_source_example : IsPolled answering 0x50 ⊎ IsOwn answering 0x50 with_request
service_request_source_example =
    service_request_source answering command true with_request 0x50 answering_runs refl
