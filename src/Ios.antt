-- ===== src/Ios.antt =====
-- ppc/wii/ios.c: requests to IOS, the other processor. A request takes one of 32 aligned buffers and the
-- completion context of the same number, fills both and submits the buffer; the interrupt handler finds
-- the context again by the address of the buffer. Pointers and ints are 32-bit words; what the cache
-- instructions and the submission of buffers see is a list of events, in order.
pub mod Folder
pub mod Slots
pub mod Ring
pub mod Complete
pub mod Vectors
pub mod Open
mod Examples
use libtwilight.Prelude.{
  ℕ, zero, suc, ◌+◌, ◌-◌, ◌*◌, ◌/◌, ◌%◌, ◌^◌, bit_and, bit_or, Bool, ◌&&◌, ◌||◌, not, List, [], ◌∷◌,
  ◌++◌, Option, none, some, ltb, leb, ◌==◌, if◌then◌else◌, length, drop,
}
use libtwilight.Prelude.Int.{ℤ, pos, negsuc, signed32}
use libtwilight.Prelude.Bits.{complement}
use libtwilight.Future.{create, Action, reaching, Wake, Outcome, returned, waiting, await}

-- `TwIoCompletionContext`.
pub record Completion : Type 0 where
  pub handler : ℕ
  pub file : ℕ
  pub user_data : ℕ
  pub method : ℕ

-- `TwView`.
pub record View : Type 0 where
  pub data_at : ℕ
  pub size : ℕ

pub data Event : Type 0 where
  sync_after_write sync_before_read : ℕ → ℕ → Event
  submitted rebooted : ℕ → Event

-- The static variables: the address of `_ios_buffers`, the words of memory, the completion contexts
-- and the write head.
pub record Ios : Type 0 where
  pub buffers : ℕ
  pub words : ℕ → ℕ
  pub completions : ℕ → Completion
  pub write_head : ℕ
  pub events : List Event

-- `ALIGNED_IOS_BUFFER`.
pub aligned_buffer : ℕ → ℕ → ℕ
aligned_buffer buffers idx = bit_and ((buffers + idx * 0x40 + 0x3f) % 2 ^ 32) (complement 32 0x3f)

-- `GET_PHYSICAL_POINTER`.
pub physical : ℕ → ℕ
physical pointer = bit_and pointer 0x3fffffff

-- `iob[0] = ...; iob[1] = ...;` and so on.
pub store_words : (ℕ → ℕ) → ℕ → List ℕ → ℕ → ℕ
store_words words address [] = words
store_words words address (x ∷ xs) =
    store_words (λ y. if y == address then x else words y) (address + 4) xs

-- `TW_AddAtomic(&_ios_completion_write_head, 1) & 0x1f`, which gives the head before the addition.
pub slot_of : Ios → ℕ
slot_of s = bit_and s.write_head 0x1f

-- The context of the slot that is taken.
pub take_slot : Ios → Completion → Ios
unfolding slot_of
take_slot s c = record s {
  completions = (λ i. if i == slot_of s then c else s.completions i);
  write_head = (s.write_head + 1) % 2 ^ 32;
}

-- The words of a request in the buffer `idx`, what is done to the cache, and the submission.
pub submit : Ios → ℕ → List ℕ → List Event → Ios
unfolding aligned_buffer store_words
submit s idx request synced =
    let iob = aligned_buffer s.buffers idx in
    record s {
      words = store_words s.words iob request;
      events = s.events ++ synced ++ (submitted iob ∷ []);
    }

-- `if (data && size > 0) TW_SyncAfterWrite(data, size)`.
pub sync_input : View → List Event
sync_input v = if v.data_at == 0 || v.size == 0 then [] else sync_after_write v.data_at v.size ∷ []

-- The loop of the ioctlv calls over the array: its first `n` views are inputs.
pub prepare : ℕ → List View → List Event × List View
unfolding physical sync_input
prepare n [] = ([], [])
prepare zero (v ∷ vs) =
    let rest = prepare zero vs in (rest.0, record v { data_at = physical v.data_at } ∷ rest.1)
prepare (suc n) (v ∷ vs) =
    let rest = prepare n vs in
    (sync_input v ++ rest.0, record v { data_at = physical v.data_at } ∷ rest.1)

-- The methods of an open device, less the completion that all of them take. The array of an ioctlv call is
-- the inputs and behind them the outputs.
pub data Request : Type 0 where
  reading : (data_at size : ℕ) → Request
  writing : (data_at size : ℕ) → Request
  seeking : (seek_amount whence : ℕ) → Request
  ioctl : (method input input_size output output_size : ℕ) → Request
  ioctlv : (method : ℕ) (inputs outputs : List View) (array : ℕ) → Request
  closing : Request

pub method_of : Request → ℕ
method_of closing = 2
method_of (reading data_at size) = 3
method_of (writing data_at size) = 4
method_of (seeking seek_amount whence) = 5
method_of (ioctl method input input_size output output_size) = 6
method_of (ioctlv method inputs outputs array) = 7

-- The words that the methods store in the buffer for the descriptor `fd`.
pub request_words : ℕ → Request → List ℕ
unfolding physical
request_words fd (reading data_at size) = 3 ∷ 0 ∷ fd ∷ physical data_at ∷ size ∷ []
request_words fd (writing data_at size) = 4 ∷ 0 ∷ fd ∷ physical data_at ∷ size ∷ []
request_words fd (seeking seek_amount whence) = 5 ∷ 0 ∷ fd ∷ seek_amount % 2 ^ 32 ∷ whence ∷ []
request_words fd (ioctl method input input_size output output_size) =
    6 ∷ 0 ∷ fd ∷ method ∷ physical input ∷ input_size ∷ physical output ∷ output_size ∷ []
request_words fd (ioctlv method inputs outputs array) =
    7 ∷ 0 ∷ fd ∷ method ∷ length inputs ∷ length outputs ∷ array ∷ []
request_words fd closing = 2 ∷ 0 ∷ fd ∷ []

-- The caches that they write back.
pub request_syncs : Request → List Event
unfolding prepare sync_input
request_syncs (writing data_at size) = sync_after_write data_at size ∷ []
request_syncs (ioctl method input input_size output output_size) =
    if leb (2 ^ 31) input_size
    then []
    else sync_input (record { data_at = input; size = input_size })
request_syncs (ioctlv method inputs outputs array) = (prepare (length inputs) (inputs ++ outputs)).0
request_syncs request = []

-- `_read_ios_file`, `_write_ios_file`, `_seek_ios_file`, `_ioctl_ios_file`, `_ioctlv_ios_file` and
-- `_close_ios_file` for the file at the address `file`.
pub issue : Ios → (file fd user_data handler : ℕ) → Request → Ios
unfolding slot_of take_slot submit method_of request_words request_syncs
issue s file fd user_data handler request =
    let c : Completion = record {
      handler = handler;
      file = file;
      user_data = user_data;
      method = method_of request;
    } in
    submit (take_slot s c) (slot_of s) (request_words fd request) (request_syncs request)

-- The offset of a buffer in bytes, as the index of its context: `(iob - base_iob) >> 6`, where the
-- difference counts words.
pub index_of : ℤ → Option ℕ
index_of (pos d) = some (d / 4 / 64)
index_of (negsuc d) = none

-- The end of the next function: the call of the handler, and the result it is given.
pub invoke : Ios → ℕ → Option ℕ → Option (Completion × ℕ)
invoke s iob none = none
invoke s iob (some idx) =
    let ch = s.completions idx in
    if ltb idx 32 && not (ch.handler == 0) then some (ch, s.words (iob + 4)) else none

-- `TW_InvokeMatchingIosCompletionHandler`.
pub invoke_matching : Ios → ℕ → Option (Completion × ℕ)
unfolding aligned_buffer index_of invoke
invoke_matching s iob =
    invoke s iob (index_of (signed32 ((iob + (2 ^ 32 - aligned_buffer s.buffers 0)) % 2 ^ 32)))

-- The second loop of `TW_IoctlvRebootIos`, over the outputs with their physical addresses.
pub sync_outputs : List View → List Event
sync_outputs [] = []
sync_outputs (v ∷ vs) =
    let rest = sync_outputs vs in
    if v.data_at == 0 || v.size == 0
    then rest
    else sync_before_read (bit_or 0x80000000 v.data_at) v.size ∷ rest

-- `TW_IoctlvRebootIos`: the state and the array as it leaves them. Its result is the word that IOS stores at
-- `iob[1]`, which the model leaves to the caller.
pub reboot : Ios → (fd method : ℕ) → (inputs outputs : List View) → (array : ℕ) → Ios × List View
unfolding slot_of aligned_buffer store_words prepare sync_outputs
reboot s fd method inputs outputs array =
    let iob = aligned_buffer s.buffers (slot_of s) in
    let words = 7 ∷ 0 ∷ fd ∷ method ∷ length inputs ∷ length outputs ∷ array ∷ [] in
    let prepared = prepare (length inputs) (inputs ++ outputs) in
    (
      record s {
        words = store_words s.words iob words;
        write_head = (s.write_head + 1) % 2 ^ 32;
        events =
            s.events
            ++ prepared.0
            ++ (rebooted iob ∷ [])
            ++ sync_outputs (drop (length inputs) prepared.1);
      },
      prepared.1,
    )

-- The type and the descriptor of the `TwFile` that an open call returns; both are 0 on failure.
pub record Device : Type 0 where
  pub file_type : ℕ
  pub fd : ℕ

abbrev pub no_device : Device
no_device = record { file_type = 0; fd = 0 }

-- `_tw_await_ios_open`.
pub await_ios_open : ℕ → Action
await_ios_open result = reaching (result % 2 ^ 32) 0

-- The end of `TW_OpenIosDevice`.
pub opened : ℤ → Device
opened (pos zero) = no_device
opened (pos (suc n)) = record { file_type = 3; fd = suc n }
opened (negsuc n) = no_device

pub opened_by : Outcome ℕ → Outcome Device
unfolding opened
opened_by (returned result) = returned (opened (signed32 (bit_and result 0xffffffff)))
opened_by waiting = waiting

-- The request of `TW_OpenIosDevice`, with the future at the address `future`, `on_open` for the address of
-- the function `_tw_await_ios_open`, and `path` for that of the path; the copy of the path is not used.
pub open_request : Ios → (future on_open flags path : ℕ) → Ios
unfolding slot_of take_slot submit
open_request s future on_open flags path =
    let c : Completion = record { handler = on_open; file = 0; user_data = future; method = 1 } in
    submit (take_slot s c) (slot_of s) (1 ∷ 0 ∷ 0 ∷ path ∷ flags ∷ []) []

-- `TW_OpenIosDevice`, which waits for the future.
pub open_device :
    Ios → (future on_open flags path : ℕ) → (path_len : ℤ) → List Wake → Ios × Outcome Device
unfolding open_request opened_by
open_device s future on_open flags path (pos (suc n)) wakes =
    if path == 0
    then (s, returned no_device)
    else (open_request s future on_open flags path, opened_by (await (create 0 0) wakes))
open_device s future on_open flags path path_len wakes = (s, returned no_device)
