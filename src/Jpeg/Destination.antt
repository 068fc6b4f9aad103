-- ===== src/Jpeg/Destination.antt =====
-- The destination of the JPEG encoder in plugins/input_uvc/jpeg_utils.c. What libjpeg does between
-- the calls is a parameter.
use robotica_movel.Prelude.{ℕ, suc, ◌+◌, ◌-◌, ◌<◌, [], ◌∷◌, ◌++◌, ◌≡◌, Bytes, length, take, drop}

-- `OUTPUT_BUF_SIZE`
abbrev pub output_buf_size : ℕ
output_buf_size = 4096

-- `mjpg_destination_mgr`: the local buffer, the place of `next_output_byte` in it, and
-- `free_in_buffer`; what stands in `outbuffer` before `outbuffer_cursor`, and `*written`.
pub record Destination : Type 0 where
  pub buffer : Bytes
  pub next_output_byte : ℕ
  pub free_in_buffer : ℕ
  pub outbuffer : Bytes
  pub written : ℕ

-- `init_destination`, behind `dest_buffer`; `memory` is what `alloc_small` gives.
unfoldable pub init_destination : Bytes → Destination
init_destination memory = record {
  buffer = memory;
  next_output_byte = 0;
  free_in_buffer = output_buf_size;
  outbuffer = [];
  written = 0;
}

unfoldable pub empty_output_buffer : Destination → Destination
empty_output_buffer dest = record dest {
  outbuffer = dest.outbuffer ++ take output_buf_size dest.buffer;
  written = dest.written + output_buf_size;
  next_output_byte = 0;
  free_in_buffer = output_buf_size;
}

unfoldable pub term_destination : Destination → Destination
term_destination dest =
    let datacount = output_buf_size - dest.free_in_buffer in
    record dest {
      outbuffer = dest.outbuffer ++ take datacount dest.buffer;
      written = dest.written + datacount;
    }

-- A byte stored at `next_output_byte`.
abbrev pub with_byte : Destination → ℕ → Destination
with_byte dest c = record dest {
  buffer =
      take dest.next_output_byte dest.buffer ++ c ∷ drop (suc dest.next_output_byte) dest.buffer;
  next_output_byte = suc dest.next_output_byte;
  free_in_buffer = dest.free_in_buffer - 1;
}

-- What libjpeg documents of a destination: the encoder stores a byte, and calls `empty_output_buffer`
-- when no place is left.
pub record EncoderLaws (emit_byte : Destination → ℕ → Destination) : Type 0 where
  pub stores :
      (dest : Destination) (c : ℕ) → 1 < dest.free_in_buffer → emit_byte dest c ≡ with_byte dest c
  pub empties :
      (dest : Destination) (c : ℕ)
      → dest.free_in_buffer ≡ 1
      → emit_byte dest c ≡ empty_output_buffer (with_byte dest c)

-- The bytes of a picture, one after the other.
unfoldable pub emit : (Destination → ℕ → Destination) → Destination → Bytes → Destination
emit emit_byte dest [] = dest
emit emit_byte dest (c ∷ s) = emit emit_byte (emit_byte dest c) s

-- The calls around a picture.
unfoldable pub compress : (Destination → ℕ → Destination) → Bytes → Bytes → Destination
unfolding init_destination emit term_destination
compress emit_byte memory s = term_destination (emit emit_byte (init_destination memory) s)

-- The bytes `done` are stored, in `outbuffer` or in the local buffer.
record Holds (dest : Destination) (done : Bytes) : Type 0 where
  full : length dest.buffer ≡ output_buf_size
  places : dest.next_output_byte + dest.free_in_buffer ≡ output_buf_size
  some_free : 0 < dest.free_in_buffer
  text : dest.outbuffer ++ take dest.next_output_byte dest.buffer ≡ done
  count : dest.written ≡ length dest.outbuffer

-- What the destination holds at the end.
pub record Written (dest : Destination) (s : Bytes) : Type 0 where
  pub content : dest.outbuffer ≡ s
  pub size : dest.written ≡ length s
