-- ===== src/Verification/Redis/Ping.antt =====
-- `SocketRedisPingTransport.ping` (verification.py): a response is read up to its end, to the end of
-- the stream or to one byte more than the bound.
use control_plane_kit_interp.Base.{
  ℕ, zero, suc, ◌+◌, ◌-◌, ◌≤◌, Bool, true, false, ◌&&◌, List, [], ◌∷◌, ◌++◌, Option, none, some,
  ◌≡◌, ltb, beq, if◌then◌else◌, Bool-cases, if-true_at, if-false_at, inl, inr, arith,
}
use control_plane_kit_interp.Base.Lists.{length}
use control_plane_kit_interp.Effect.{returned, Eff, pure, ◌>>=◌, ◌>>◌}
use control_plane_kit_interp.Effect.Laws.{>>=-eq-returned}
use control_plane_kit_interp.Verification.Http.{min}

-- `response.endswith(b"\r\n")`
unfoldable pub ends_line : List ℕ → Bool
ends_line [] = false
ends_line (a ∷ []) = false
ends_line (a ∷ b ∷ []) = beq a 13 && beq b 10
ends_line (a ∷ b ∷ c ∷ rest) = ends_line (b ∷ c ∷ rest)

-- An open connection: `sendall(b"*1\r\n$4\r\nPING\r\n")` with the timeout set, `recv` and `close`.
pub record Connection (D : Type 0) : Type 0 where
  pub send_ping : Eff D (Unit {0})
  pub recv : ℕ → Eff D (List ℕ)
  pub close : Eff D (Unit {0})

abbrev pub is_empty : List ℕ → Bool
is_empty [] = true
is_empty (b ∷ bs) = false

module _ {D : Type 0} (connection : Connection D) (limit : ℕ) where
  -- The loop, on fuel: `none` says that the fuel did not do.
  unfoldable pub read_line : ℕ → List ℕ → Eff D (Option (List ℕ))
  unfolding ends_line
  read_line zero response = pure none
  read_line (suc fuel) response =
      if ends_line response
      then pure (some response)
      else connection.recv (min 4096 (limit + 1 - length response)) >>= λ chunk.
          if is_empty chunk
          then pure (some response)
          else if ltb limit (length (response ++ chunk))
          then pure (some (response ++ chunk))
          else read_line fuel (response ++ chunk)

  -- `finally: connection.close()`: what the close raises takes the place of the outcome.
  abbrev closing : Eff D (Option (List ℕ)) → Eff D (Option (List ℕ))
  closing run d = (connection.close >>= λ _ e. ((run d).0, e)) (run d).1

  abbrev pub exchange : Eff D (Option (List ℕ))
  exchange = connection.send_ping >> read_line (limit + 2) []

  -- A round that goes on has read one byte more and is at most at the bound, so `limit + 2` rounds do.
  unfoldable pub ping : Eff D (Option (List ℕ))
  unfolding read_line
  ping = closing exchange

-- `recv(n)` answers at most `n` bytes.
pub record IsBounded {D : Type 0} (connection : Connection D) : Type 0 where
  pub at :
      (n : ℕ) (d d' : D) (chunk : List ℕ)
      → connection.recv n d ≡ (returned chunk, d')
      → length chunk ≤ n

length-append : (xs ys : List ℕ) → length (xs ++ ys) ≡ length xs + length ys
length-append [] ys = omega arith
length-append (x ∷ xs) ys = omega (arith, length-append xs ys)

min-le : (a b : ℕ) → min a b ≤ b
min-le a b = ground arith

is_empty-length : (xs : List ℕ) → is_empty xs ≡ false → 1 ≤ length xs
is_empty-length [] h = absurd (ground arith)
is_empty-length (x ∷ xs) h = omega arith

module _ {D : Type 0} (connection : Connection D) (limit : ℕ) (law : IsBounded connection) where
  -- What the loop returned: a response of at most one byte more than the bound.
  abbrev pub Ends : Option (List ℕ) → Type 0
  Ends o = (response : List ℕ) × (o ≡ some response) × (length response ≤ limit + 1)

  stopped :
      (response : List ℕ) (d d' : D) (o : Option (List ℕ))
      → length response ≤ limit + 1
      → pure {D = D} (some response) d ≡ (returned o, d')
      → Ends o
  stopped response d d' o fits h = (response, ground arith, fits)

  read_line-Ends :
      (fuel : ℕ) (response : List ℕ) (d d' : D) (o : Option (List ℕ))
      → length response ≤ limit
      → limit + 2 ≤ fuel + length response
      → read_line connection limit fuel response d ≡ (returned o, d')
      → Ends o
  unfolding read_line
  read_line-Ends zero response d d' o small enough h = absurd (omega arith)
  read_line-Ends (suc fuel) response d d' o small enough h =
      elim (Bool-cases (ends_line response)) [
        | inl ended ↦ stopped response d d' o (omega arith) (if-true_at _ _ _ _ _ ended h)
        | inr open_line ↦
            let (chunk, e, received, rest) =
              >>=-eq-returned (connection.recv (min 4096 (limit + 1 - length response))) _
                (if-false_at _ _ _ _ _ open_line h) in
            let fits : length (response ++ chunk) ≤ limit + 1 = omega (
              arith,
              length-append response chunk,
              law.at _ d e chunk received,
              min-le 4096 (limit + 1 - length response),
            ) in
            elim (Bool-cases (is_empty chunk)) [
              | inl closed ↦
                  stopped response e d' o (omega arith) (if-true_at _ _ _ _ _ closed rest)
              | inr more ↦ elim (Bool-cases (ltb limit (length (response ++ chunk)))) [
                | inl over ↦
                    stopped (response ++ chunk) e d' o fits
                      (if-true_at _ _ _ _ _ over (if-false_at _ _ _ _ _ more rest))
                | inr under ↦
                    read_line-Ends fuel (response ++ chunk) e d' o (ground arith)
                      (omega (arith, length-append response chunk, is_empty-length chunk more))
                      (if-false_at _ _ _ _ _ under (if-false_at _ _ _ _ _ more rest))
              ]
            ]
      ]

  -- Where `recv` answers at most as many bytes as it is asked for, the loop of `ping` ends before its
  -- fuel does: a ping that returns has a response, of at most one byte more than the bound.
  pub ping-Ends :
      (d d' : D) (o : Option (List ℕ)) → ping connection limit d ≡ (returned o, d') → Ends o
  unfolding ping
  ping-Ends d d' o h =
      let (_, _, _, result) =
        >>=-eq-returned connection.close (λ _ e. ((exchange connection limit d).0, e)) h in
      let outcome : (exchange connection limit d).0 ≡ returned o = λ i. (result i).0 in
      let run : exchange connection limit d ≡ (returned o, (exchange connection limit d).1) =
        λ i. (outcome i, (exchange connection limit d).1) in
      let (_, e, _, read) =
        >>=-eq-returned connection.send_ping (λ _. read_line connection limit (limit + 2) []) run in
      read_line-Ends (limit + 2) [] e _ o (omega arith) (omega arith) read
