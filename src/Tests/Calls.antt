-- ===== src/Tests/Calls.antt =====
-- A thread with the hooks enabled that asks for the flags of a file, which gets an item, and closes
-- another file.
use uiconnect.Base.{
  ◌≤◌, ◌<◌, ◌≡◌, ◌⊎◌, refl, Bool, true, false, none, some, List, [], ◌∷◌, get_elem?, set,
}
use uiconnect.Base.Outcome.{ok, fault}
use uiconnect.Hook.{good_stat, FdItem, FdManager, so_rcvtimeo, new_item}
use uiconnect.Hook.Calls.{
  bad_fd, eagain, Answer, done, failed, Kernel, IoEnd, io_loop, Call, socket, connect, accept,
  transfer, close, fcntl_getfl, perform, run, new_manager,
}
use uiconnect.Hook.Calls.Open.{IsTable, IsEndless}
use uiconnect.Hook.Calls.Kept.{run-transfer, run-accept}
use uiconnect.Hook.Calls.Looping.{EndsBy, io_loop_lem}
use uiconnect.Hook.Calls.Connecting.{run-connect}

-- every descriptor is a socket, or none is, and each original call answers alike
abbrev answering : Bool → Answer → Kernel
answering is_socket a = record {
  stat = λ fd. good_stat is_socket;
  answers = λ i. a;
  resumes = λ i. true;
  expires = λ i. true;
  adds_event = true;
  so_error = done 0;
  depth = 100;
}

abbrev calls : List (Bool × Kernel × Call)
calls =
    (true, answering false (done 2), fcntl_getfl 3)
    ∷ (true, answering false (done 2), fcntl_getfl 4)
    ∷ (true, answering false (done 0), close 4)
    ∷ []

abbrev after_calls : FdManager
after_calls = set new_manager 3 (some (new_item (good_stat false) 3))

calls_run : run calls new_manager ≡ ok after_calls
unfolding run perform
calls_run = refl

-- a read of a socket on descriptor 5
run-transfer_example :
    ((fds : FdManager) × (perform true
          (answering true (failed eagain))
          (transfer so_rcvtimeo 5)
          after_calls
        ≡ ok (failed eagain, fds))
      × IsTable 64 fds)
    ⊎ ((true ≡ true)
        × IsEndless 64 (good_stat true) 5 after_calls
        × (perform true (answering true (failed eagain)) (transfer so_rcvtimeo 5) after_calls
            ≡ fault))
run-transfer_example =
    run-transfer calls after_calls true (answering true (failed eagain)) so_rcvtimeo 5 calls_run

run-accept_example :
    ((item : FdItem) × (get_elem? after_calls 7 ≡ some (some item))
      × (item.is_socket ≡ false)
      × (perform false (answering true (done 7)) (accept 6) after_calls ≡ ok (done 7, after_calls))
      × (perform true (answering true (done 7)) socket after_calls ≡ ok (done 7, after_calls)))
    ⊎ ((7 < 64 → get_elem? after_calls 7 ≡ some none)
        × (perform false (answering true (done 7)) (accept 6) after_calls ≡ fault)
        × (perform true (answering true (done 7)) socket after_calls ≡ fault))
run-accept_example = run-accept calls after_calls (answering true (done 7)) 6 7 calls_run refl refl

run-connect_example :
    ((64 ≤ 64)
      × (perform true (answering true (done 0)) (connect 5000 64) after_calls
          ≡ ok (failed bad_fd, after_calls)))
    ⊎ (((item : FdItem) × (get_elem? after_calls 64 ≡ some (some item))
          × (perform true (answering true (done 0)) (connect 5000 64) after_calls
              ≡ ok (done 0, after_calls)))
        ⊎ ((get_elem? after_calls 64 ≡ some none)
            × (perform true (answering true (done 0)) (connect 5000 64) after_calls ≡ fault)))
run-connect_example = run-connect calls after_calls (answering true (done 0)) 5000 64 calls_run refl

io_loop_lem_example :
    (r : IoEnd) × (io_loop 2 50 (answering true (failed eagain)) (done 0) 0 ≡ some (r, 1))
    × EndsBy 50 (answering true (failed eagain)) (failed eagain) r
io_loop_lem_example = io_loop_lem 0 50 (answering true (failed eagain))
