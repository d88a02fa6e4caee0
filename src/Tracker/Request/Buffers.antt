-- ===== src/Tracker/Request/Buffers.antt =====
-- The read buffers: what the tracker keeps of a request that is not complete.
use torrent_link.Prelude.{
  ℕ, ℤ, ◌≤◌, ◌≡◌, ◌≢◌, refl, ◌⊎◌, inl, inr, ltb, ◌==◌, ==_iff, false, Option, none, some, List, [],
  ◌∷◌, ◌++◌, arith, length, Bool-cases, Bytes, nat_key,
}
use torrent_link.Prelude.Assoc.{lookup, lookup-put, lookup-erase}
use torrent_link.Tracker.Request.{
  Qt, Worker, header_end, buffer_of, handle_buffer, handle_read, disconnected, clean_up,
}

module _ (qt : Qt) (sock : ℕ) (address : Option ℕ) (now : ℤ) where
  buffers-handle_buffer_ne :
      (buf : Bytes) (end : Option ℕ) (w : Worker) (j : ℕ)
      → (sock == j) ≡ false
      → lookup j (handle_buffer qt sock address now buf end w).0.buffers ≡ lookup j w.buffers
  unfolding handle_buffer
  buffers-handle_buffer_ne buf none w j h =
      ground (arith, lookup-put sock j buf w.buffers, lookup-erase sock j w.buffers)
  buffers-handle_buffer_ne buf (some end) w j h = ground (arith, lookup-erase sock j w.buffers)

  abbrev pub Kept : Bytes → Worker × Option Bytes → Type 0
  Kept buf r =
      (r.1 ≡ none)
      × (header_end buf ≡ none)
      × (length buf ≤ 8192)
      × (lookup sock r.0.buffers ≡ some buf)

  abbrev pub Answered : Worker × Option Bytes → Type 0
  Answered r = (r.1 ≢ none) × (lookup sock r.0.buffers ≡ none)

  handle_buffer_cases :
      (buf : Bytes) (end : Option ℕ) (w : Worker)
      → header_end buf ≡ end
      → Kept buf (handle_buffer qt sock address now buf end w)
        ⊎ Answered (handle_buffer qt sock address now buf end w)
  unfolding handle_buffer
  handle_buffer_cases buf (some end) w e =
      inr (λ h. cc, ground (arith, lookup-erase sock sock w.buffers))
  handle_buffer_cases buf none w e = elim (Bool-cases (ltb 8192 (length buf))) [
    | inl long ↦ rw long (inr (λ h. cc, ground (arith, lookup-erase sock sock w.buffers)))
    | inr short ↦
        rw short (inl (refl, e, ground arith, ground (arith, lookup-put sock sock buf w.buffers)))
  ]

  -- A read has one of two outcomes. Either the socket gets no reply, and what has come in on it so
  -- far, which has no end of a header and at most 8192 bytes, is kept; or it gets a reply and nothing
  -- of it is kept.
  pub handle_read_cases :
      (chunk : Bytes) (w : Worker)
      → let buf = buffer_of qt sock w ++ chunk in
        Kept buf (handle_read qt sock address now chunk w)
        ⊎ Answered (handle_read qt sock address now chunk w)
  unfolding handle_read
  handle_read_cases chunk w =
      elim (Bool-cases (ltb 1_048_576 (length (buffer_of qt sock w ++ chunk)))) [
        | inl long ↦ rw long (inr (λ h. cc, ground (arith, lookup-erase sock sock w.buffers)))
        | inr short ↦ rw short (
            handle_buffer_cases (buffer_of qt sock w ++ chunk)
              (header_end (buffer_of qt sock w ++ chunk)) w refl)
      ]

  -- A read on one socket leaves the buffers of the others alone.
  pub buffers-handle_read_ne :
      (chunk : Bytes) (w : Worker) (j : ℕ)
      → (sock == j) ≡ false
      → lookup j (handle_read qt sock address now chunk w).0.buffers ≡ lookup j w.buffers
  unfolding handle_read
  buffers-handle_read_ne chunk w j h = ground (
    arith,
    lookup-erase sock j w.buffers,
    buffers-handle_buffer_ne (buffer_of qt sock w ++ chunk)
        (header_end (buffer_of qt sock w ++ chunk)) w j,
  )

-- No socket has more than 8192 bytes in its buffer.
abbrev pub AreSmall : Worker → Type 0
AreSmall w = (j : ℕ) (b : Bytes) → lookup j w.buffers ≡ some b → length b ≤ 8192

-- What reaches the worker: bytes on a socket, with the IPv4 address of the peer if it has one and the
-- time, the end of a connection, and the timer.
pub data Event : Type 0 where
  read : ℕ → Option ℕ → ℤ → Bytes → Event
  closed : ℕ → Event
  timer : ℤ → Event

module _ (qt : Qt) where
  unfoldable pub handle : Event → Worker → Worker
  handle (read sock address now chunk) w = (handle_read qt sock address now chunk w).0
  handle (closed sock) w = disconnected sock w
  handle (timer now) w = clean_up now w

  unfoldable pub handle_all : List Event → Worker → Worker
  handle_all [] w = w
  handle_all (e ∷ es) w = handle_all es (handle e w)

  handle-AreSmall : (e : Event) (w : Worker) → AreSmall w → AreSmall (handle e w)
  unfolding handle disconnected clean_up
  handle-AreSmall (timer now) w v j b h = v j b h
  handle-AreSmall (closed sock) w v j b h = v j b (ground (arith, lookup-erase sock j w.buffers))
  handle-AreSmall (read sock address now chunk) w v j b h = elim (Bool-cases (sock == j)) [
    | inr other ↦
        v j b (ground (arith, h, buffers-handle_read_ne qt sock address now chunk w j other))
    | inl own ↦
        let same : sock ≡ j = (==_iff sock j).0 own in
        ground (arith, same, h, handle_read_cases qt sock address now chunk w)
  ]

  -- However the bytes come in, on however many sockets, no read buffer ever holds more than 8192.
  pub handle_all-AreSmall : (es : List Event) (w : Worker) → AreSmall w → AreSmall (handle_all es w)
  unfolding handle_all
  handle_all-AreSmall [] w v = v
  handle_all-AreSmall (e ∷ es) w v = handle_all-AreSmall es (handle e w) (handle-AreSmall e w v)
