-- ===== src/Net.antt =====
-- c_dispatch/src/network_utils.c: the loops over a socket, and JSON lines.
pub mod Recv
pub mod Send
pub mod Line
pub mod LineTotal
use hybrid_pqc_benchmarking.Prelude.{
  ℕ, zero, suc, ◌+◌, ◌-◌, ◌*◌, min, Bool, true, false, Option, none, some, List, [], ◌∷◌, ◌++◌, leb,
  ◌==◌, if◌then◌else◌, length, take, drop,
}

-- The peer's bytes that have not been read, what was written, and the kernel's choices: how many
-- bytes each later `read` and `write` transfers at most, where 0 is an error. Where the choices
-- run out, a call transfers all that it can. `read` gives 0 at the end of the peer's bytes.
pub record Socket : Type 0 where
  pub inbox : List ℕ
  pub outbox : List ℕ
  pub reads : List ℕ
  pub writes : List ℕ

abbrev pub choice : List ℕ → ℕ → ℕ
choice [] want = want
choice (k ∷ ks) want = min k want

abbrev pub later : List ℕ → List ℕ
later [] = []
later (k ∷ ks) = ks

-- `read(fd, p, want)`; no bytes stand for a result of 0 or less.
unfoldable pub sys_read : ℕ → Socket → List ℕ × Socket
sys_read want s =
    let n = choice s.reads want in
    (take n s.inbox, record s { inbox = drop n s.inbox; reads = later s.reads })

-- `write(fd, p, len)`: how many bytes went out.
unfoldable pub sys_write : List ℕ → Socket → ℕ × Socket
sys_write bytes s =
    let n = choice s.writes (length bytes) in
    (n, record s { outbox = s.outbox ++ take n bytes; writes = later s.writes })

abbrev pub prepend : List ℕ → Option (List ℕ) × Socket → Option (List ℕ) × Socket
prepend bytes (none, s) = (none, s)
prepend bytes (some rest, s) = (some (bytes ++ rest), s)

-- The loop with `missing` = len - total bytes to go. Each round that goes on reads a byte or more.
unfoldable pub recv_loop : ℕ → ℕ → Socket → Option (List ℕ) × Socket
unfolding sys_read
recv_loop fuel zero s = (some [], s)
recv_loop zero (suc missing) s = (none, s)
recv_loop (suc fuel) (suc missing) s = elim (sys_read (suc missing) s).0 [
  | [] ↦ (none, (sys_read (suc missing) s).1)
  | b ∷ bs ↦ prepend (b ∷ bs) (recv_loop fuel (missing - length bs) (sys_read (suc missing) s).1)
]

unfoldable pub recv_all : ℕ → Socket → Option (List ℕ) × Socket
unfolding recv_loop
recv_all len s = recv_loop len len s

-- The loop over the bytes that have not been written.
unfoldable pub send_loop : ℕ → List ℕ → Socket → Bool × Socket
unfolding sys_write
send_loop fuel [] s = (true, s)
send_loop zero (b ∷ bs) s = (false, s)
send_loop (suc fuel) (b ∷ bs) s = elim (sys_write (b ∷ bs) s).0 [
  | zero ↦ (false, (sys_write (b ∷ bs) s).1)
  | suc n ↦ send_loop fuel (drop n bs) (sys_write (b ∷ bs) s).1
]

unfoldable pub send_all : List ℕ → Socket → Bool × Socket
unfolding send_loop
send_all bytes s = send_loop (length bytes) bytes s

-- `send_json_line`: the printed object and a newline, in one `write`. A failing `malloc` of the
-- buffer comes out as a text that could not be printed: -1, with nothing written.
unfoldable pub send_line : List ℕ → Socket → Bool × Socket
unfolding sys_write
send_line text s =
    let (sent, s') = sys_write (text ++ (b'\n' ∷ [])) s in (sent == length text + 1, s')

-- The buffer of `recv_json_line`: `used` bytes of `cap`, in order.
pub record LineBuffer : Type 0 where
  pub bytes : List ℕ
  pub used : ℕ
  pub cap : ℕ

-- The `realloc` at the head of the loop; `realloc_ok` says whether it succeeds.
unfoldable pub grow : (ℕ → Bool) → LineBuffer → Option LineBuffer
grow realloc_ok b =
    if leb b.cap (b.used + 1)
    then (if realloc_ok (b.cap * 2) then some (record b { cap = b.cap * 2 }) else none)
    else some b

abbrev pub store_byte : LineBuffer → ℕ → LineBuffer
store_byte b c = record b { bytes = b.bytes ++ (c ∷ []); used = b.used + 1 }

-- The loop of `recv_json_line`, a byte at a time: the buffer when the newline has come, which the
-- caller ends by a NUL at `used` and parses. Fuel: the bytes still to come, and one.
unfoldable pub recv_line_loop : (ℕ → Bool) → ℕ → LineBuffer → Socket → Option LineBuffer × Socket
unfolding grow sys_read
recv_line_loop ok zero b s = (none, s)
recv_line_loop ok (suc fuel) b s = elim (grow ok b) [
  | none ↦ (none, s)
  | some b' ↦ elim (sys_read 1 s).0 [
    | [] ↦ (none, (sys_read 1 s).1)
    | c ∷ _ ↦
        let rest = recv_line_loop ok fuel (store_byte b' c) (sys_read 1 s).1 in
        if c == b'\n' then (some b', (sys_read 1 s).1) else rest
  ]
]

abbrev pub empty_line : LineBuffer
empty_line = record { bytes = []; used = 0; cap = 4096 }

-- `ok` says which sizes the allocator can give, to the first `malloc` too.
unfoldable pub recv_line : (ℕ → Bool) → Socket → Option LineBuffer × Socket
unfolding recv_line_loop
recv_line ok s =
    let line = recv_line_loop ok (suc (length s.inbox)) empty_line s in
    if ok 4096 then line else (none, s)
