-- ===== src/Tests/Sharing.antt =====
-- Two threads of dog-client on a list of two items.
use dog_server.Base.{
  ℕ, ◌≡◌, ◌<◌, refl, true, false, inl, inr, Bool, ◌⊎◌, some, none, Option, List, [], ◌∷◌, arith,
  codes, c_str, replicate,
}
use dog_server.Client.Http.{skip_spaces, word_of}
use dog_server.Client.Program.Listing.{
  FileItem, fgets, behind_word, sscanf_item, load_loop, load_list,
}
use dog_server.Client.Program.Listing.RoundTrip.{IsListed, list_text, load_list-list_text}
use dog_server.Client.Program.Senders.{
  Senders, new_senders, take_item, wait_round, send_step, hang_up_step, all_ended, time_out, sends,
  hangs_up, times_out, main_loops, Reaches, here, later,
}
use dog_server.Client.Program.Senders.Shared.{count, IsShared, Reaches-IsShared}
use dog_server.Client.Program.Senders.Known.{is_done}
use dog_server.Client.Program.Senders.Finished.{Reaches-finished}
use dog_server.Client.Program.Senders.Hangs.{Reaches-unfinished}

-- What happens to the first or the second thread.
data Chosen : Type 0 where
  first second first_hung_up second_hung_up waits_long : Chosen

is_or_not : (b : Bool) → (b ≡ true) ⊎ (b ≡ false)
is_or_not true = inl refl
is_or_not false = inr refl

-- `seen j` is what thread `j` finds in param->thread_id.
module _ (seen : ℕ → ℕ) where
  record Reached : Type 0 where
    last : Senders
    reach : Reaches seen 2 2 (new_senders (λ j. 0)) last

  sent :
      (j : ℕ) (r : Reached) (o : Option Senders)
      → j < 2
      → send_step seen 2 j (r.last.threads j) r.last ≡ o
      → Reached
  sent j r none b q = r
  sent j r (some d) b q = record { last = d; reach = later r.reach (sends j b q) }

  hung_up :
      (j : ℕ) (r : Reached) (o : Option Senders)
      → j < 2
      → hang_up_step (r.last.threads j) r.last ≡ o
      → Reached
  hung_up j r none b q = r
  hung_up j r (some d) b q = elim (is_or_not (main_loops r.last)) [
    | inl going ↦ record { last = d; reach = later r.reach (hangs_up j b going q) }
    | inr gone ↦ r
  ]

  timed_out : Reached → Reached
  timed_out r = elim (is_or_not (main_loops r.last)) [
    | inl going ↦ record { last = time_out 2 r.last; reach = later r.reach (times_out going) }
    | inr gone ↦ r
  ]

  turns : List Chosen → Reached → Reached
  unfolding sent hung_up timed_out is_or_not
  turns [] r = r
  turns (first ∷ ts) r = turns ts (sent 0 r _ (omega arith) refl)
  turns (second ∷ ts) r = turns ts (sent 1 r _ (omega arith) refl)
  turns (first_hung_up ∷ ts) r = turns ts (hung_up 0 r _ (omega arith) refl)
  turns (second_hung_up ∷ ts) r = turns ts (hung_up 1 r _ (omega arith) refl)
  turns (waits_long ∷ ts) r = turns ts (timed_out r)

  outcome : List Chosen → Reached
  unfolding turns
  outcome ts = turns ts record { last = new_senders (λ j. 0); reach = here }

abbrev both_work : List Chosen
both_work =
    first ∷ second ∷ first ∷ second ∷ first ∷ second ∷ second ∷ first ∷ first ∷ second_hung_up
    ∷ second ∷ second ∷ second ∷ first_hung_up ∷ first ∷ first ∷ first ∷ first ∷ second ∷ waits_long
    ∷ []

abbrev in_time : Reached (λ j. j)
in_time = outcome (λ j. j) both_work

in_time-sent : in_time.last.sent ≡ 1 ∷ 0 ∷ []
unfolding outcome turns sent hung_up timed_out is_or_not send_step take_item wait_round hang_up_step
    time_out all_ended
in_time-sent = refl

Reaches-finished_example :
    (is_done (in_time.last.threads 1) ≡ true) × (count 0 in_time.last.sent ≡ 1)
unfolding outcome turns sent hung_up timed_out is_or_not send_step take_item wait_round hang_up_step
    time_out all_ended
Reaches-finished_example =
    Reaches-finished (λ j. j) (λ j. 0) 2 2 in_time.last (λ j. refl) (λ j e. absurd (ground arith))
      in_time.reach refl refl 1 0 (omega arith) (omega arith)

Reaches-IsShared_example : IsShared 2 in_time.last
Reaches-IsShared_example = Reaches-IsShared (λ j. j) (λ j. 0) 2 2 in_time.last in_time.reach

abbrev too_late : Reached (λ j. 1)
too_late = outcome (λ j. 1) both_work

Reaches-unfinished_example : main_loops too_late.last ≡ true
unfolding outcome turns sent hung_up timed_out is_or_not send_step take_item wait_round hang_up_step
    time_out all_ended
Reaches-unfinished_example =
    Reaches-unfinished (λ j. 1) (λ j. 0) 2 2 0 too_late.last (omega arith)
      (λ e. absurd (ground arith)) (λ j e. absurd (ground arith)) too_late.reach refl

abbrev two_items : List FileItem
two_items =
    record { id = codes "a1"; path = codes "/x/a.wav" }
    ∷ record { id = codes "b"; path = codes "b.wav" }
    ∷ []

load_list-two_items :
    load_list (codes "a1\t/x/a.wav\nb\tb.wav\n")
    ≡ some record { list = two_items; cur_pos = 0; list_num = 2 }
unfolding load_list load_loop fgets sscanf_item behind_word c_str skip_spaces word_of
load_list-two_items = refl

-- A word of 256 bytes has no room for its closing byte.
load_list-long : load_list (replicate 256 97) ≡ none
unfolding load_list load_loop fgets sscanf_item behind_word c_str skip_spaces word_of
load_list-long = refl

a1-IsListed : IsListed record { id = codes "a1"; path = codes "/x/a.wav" }
a1-IsListed = record {
  id_word = ground arith;
  path_word = ground arith;
  id_room = (omega arith, omega arith);
  path_room = (omega arith, omega arith);
}

b-IsListed : IsListed record { id = codes "b"; path = codes "b.wav" }
b-IsListed = record {
  id_word = ground arith;
  path_word = ground arith;
  id_room = (omega arith, omega arith);
  path_room = (omega arith, omega arith);
}

load_list-list_text_example :
    load_list (list_text two_items) ≡ some record { list = two_items; cur_pos = 0; list_num = 2 }
load_list-list_text_example = load_list-list_text two_items (a1-IsListed, (b-IsListed, tt))
