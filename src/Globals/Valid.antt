-- ===== src/Globals/Valid.antt =====
-- The array bounds of `Input`, and what one event changes.
use fomos.Common.{
  ℕ, ◌+◌, ◌%◌, ◌^◌, ◌<◌, ◌≡◌, refl, ◌∙◌, ◌≢◌, Bool, some, arith, length, get_elem?, set, length-set,
  length-map, get_elem?-some, get_elem?-set_self, get_elem?-set_ne,
}
use fomos.Globals.Keys
use fomos.Globals.Keys.{KeyState}
use fomos.Globals.{Input, new, step, handle_incoming_state, history_size}

-- The lengths of the two arrays.
pub record IsValid (input : Input) : Type 0 where
  pub keys_length : length input.keys ≡ 1024
  pub ring_length : length input.history_ring ≡ history_size

pub new-IsValid : IsValid new
unfolding new
new-IsValid = record { keys_length = refl; ring_length = refl }

pub step-IsValid : (input : Input) → IsValid input → IsValid (step input)
unfolding step
step-IsValid input v = record {
  keys_length = length-map input.keys Keys.step ∙ v.keys_length;
  ring_length = v.ring_length;
}

-- What `input'` is to `input` after an event for `key`: that key is held exactly if the event was a
-- press, every other key and the mouse are as before, and the event is the newest of the ring.
pub record Handled (input input' : Input) (key : ℕ) (b : Bool) : Type 0 where
  pub valid : IsValid input'
  pub state : KeyState
  pub held : get_elem? input'.keys key ≡ some state
  pub pressed : Keys.is_pressed state ≡ b
  pub others : (k : ℕ) → key ≢ k → get_elem? input'.keys k ≡ get_elem? input.keys k
  pub mouse : (input'.mouse_x ≡ input.mouse_x) × (input'.mouse_y ≡ input.mouse_y)
  pub index : input'.history_last_index ≡ (input.history_last_index + 1) % 2 ^ 64
  pub newest :
      get_elem? input'.history_ring (input'.history_last_index % history_size)
      ≡ some (record { trigger = b; key = key })

-- An event for a key below 1024 is taken, with the effect that `Handled` describes.
pub handle-Handled :
    (input : Input) (key : ℕ) (b : Bool)
    → IsValid input
    → key < 1024
    → (input' : Input) × (handle_incoming_state input key b ≡ some input')
      × Handled input input' key b
unfolding handle_incoming_state
handle-Handled input key b v h =
    let (state, e) = get_elem?-some input.keys key (omega (arith, v.keys_length)) in
    let last = (input.history_last_index + 1) % 2 ^ 64 in
    (
      record input {
        history_last_index = last;
        history_ring =
            set input.history_ring (last % history_size) (record { trigger = b; key = key });
        keys = set input.keys key (Keys.handle_incoming_state state b);
      },
      rw e,
      record {
        valid = record {
          keys_length = length-set input.keys key _ ∙ v.keys_length;
          ring_length = length-set input.history_ring _ _ ∙ v.ring_length;
        };
        state = Keys.handle_incoming_state state b;
        held = get_elem?-set_self input.keys key _ (omega (arith, v.keys_length));
        pressed = Keys.handle-is_pressed state b;
        others = λ k ne. get_elem?-set_ne input.keys _ ne;
        mouse = (refl, refl);
        index = refl;
        newest = get_elem?-set_self input.history_ring _ _ (omega (arith, v.ring_length));
      },
    )
