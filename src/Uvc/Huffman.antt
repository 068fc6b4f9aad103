-- ===== src/Uvc/Huffman.antt =====
-- plugins/input_uvc/v4l2uvc.c: a Motion JPEG picture may leave its Huffman tables out; the plugin puts
-- the usual ones into it.
pub mod Insert
use robotica_movel.Prelude.{
  ℕ, zero, suc, ◌+◌, Bool, true, false, ◌&&◌, List, [], ◌∷◌, ◌++◌, Option, none, some, ltb, leb,
  ◌==◌, if◌then◌else◌, Bytes, take, drop,
}

-- huffman.h
unfoldable pub dht_data : Bytes
dht_data =
    255 ∷ 196 ∷ 1 ∷ 162 ∷ 0 ∷ 0 ∷ 1 ∷ 5 ∷ 1 ∷ 1 ∷ 1 ∷ 1 ∷ 1 ∷ 1 ∷ 0 ∷ 0 ∷ 0 ∷ 0 ∷ 0 ∷ 0 ∷ 0 ∷ 0 ∷ 1
    ∷ 2 ∷ 3 ∷ 4 ∷ 5 ∷ 6 ∷ 7 ∷ 8 ∷ 9 ∷ 10 ∷ 11 ∷ 1 ∷ 0 ∷ 3 ∷ 1 ∷ 1 ∷ 1 ∷ 1 ∷ 1 ∷ 1 ∷ 1 ∷ 1 ∷ 1 ∷ 0
    ∷ 0 ∷ 0 ∷ 0 ∷ 0 ∷ 0 ∷ 1 ∷ 2 ∷ 3 ∷ 4 ∷ 5 ∷ 6 ∷ 7 ∷ 8 ∷ 9 ∷ 10 ∷ 11 ∷ 16 ∷ 0 ∷ 2 ∷ 1 ∷ 3 ∷ 3 ∷ 2
    ∷ 4 ∷ 3 ∷ 5 ∷ 5 ∷ 4 ∷ 4 ∷ 0 ∷ 0 ∷ 1 ∷ 125 ∷ 1 ∷ 2 ∷ 3 ∷ 0 ∷ 4 ∷ 17 ∷ 5 ∷ 18 ∷ 33 ∷ 49 ∷ 65 ∷ 6
    ∷ 19 ∷ 81 ∷ 97 ∷ 7 ∷ 34 ∷ 113 ∷ 20 ∷ 50 ∷ 129 ∷ 145 ∷ 161 ∷ 8 ∷ 35 ∷ 66 ∷ 177 ∷ 193 ∷ 21 ∷ 82
    ∷ 209 ∷ 240 ∷ 36 ∷ 51 ∷ 98 ∷ 114 ∷ 130 ∷ 9 ∷ 10 ∷ 22 ∷ 23 ∷ 24 ∷ 25 ∷ 26 ∷ 37 ∷ 38 ∷ 39 ∷ 40
    ∷ 41 ∷ 42 ∷ 52 ∷ 53 ∷ 54 ∷ 55 ∷ 56 ∷ 57 ∷ 58 ∷ 67 ∷ 68 ∷ 69 ∷ 70 ∷ 71 ∷ 72 ∷ 73 ∷ 74 ∷ 83 ∷ 84
    ∷ 85 ∷ 86 ∷ 87 ∷ 88 ∷ 89 ∷ 90 ∷ 99 ∷ 100 ∷ 101 ∷ 102 ∷ 103 ∷ 104 ∷ 105 ∷ 106 ∷ 115 ∷ 116 ∷ 117
    ∷ 118 ∷ 119 ∷ 120 ∷ 121 ∷ 122 ∷ 131 ∷ 132 ∷ 133 ∷ 134 ∷ 135 ∷ 136 ∷ 137 ∷ 138 ∷ 146 ∷ 147 ∷ 148
    ∷ 149 ∷ 150 ∷ 151 ∷ 152 ∷ 153 ∷ 154 ∷ 162 ∷ 163 ∷ 164 ∷ 165 ∷ 166 ∷ 167 ∷ 168 ∷ 169 ∷ 170 ∷ 178
    ∷ 179 ∷ 180 ∷ 181 ∷ 182 ∷ 183 ∷ 184 ∷ 185 ∷ 186 ∷ 194 ∷ 195 ∷ 196 ∷ 197 ∷ 198 ∷ 199 ∷ 200 ∷ 201
    ∷ 202 ∷ 210 ∷ 211 ∷ 212 ∷ 213 ∷ 214 ∷ 215 ∷ 216 ∷ 217 ∷ 218 ∷ 225 ∷ 226 ∷ 227 ∷ 228 ∷ 229 ∷ 230
    ∷ 231 ∷ 232 ∷ 233 ∷ 234 ∷ 241 ∷ 242 ∷ 243 ∷ 244 ∷ 245 ∷ 246 ∷ 247 ∷ 248 ∷ 249 ∷ 250 ∷ 17 ∷ 0 ∷ 2
    ∷ 1 ∷ 2 ∷ 4 ∷ 4 ∷ 3 ∷ 4 ∷ 7 ∷ 5 ∷ 4 ∷ 4 ∷ 0 ∷ 1 ∷ 2 ∷ 119 ∷ 0 ∷ 1 ∷ 2 ∷ 3 ∷ 17 ∷ 4 ∷ 5 ∷ 33 ∷ 49
    ∷ 6 ∷ 18 ∷ 65 ∷ 81 ∷ 7 ∷ 97 ∷ 113 ∷ 19 ∷ 34 ∷ 50 ∷ 129 ∷ 8 ∷ 20 ∷ 66 ∷ 145 ∷ 161 ∷ 177 ∷ 193 ∷ 9
    ∷ 35 ∷ 51 ∷ 82 ∷ 240 ∷ 21 ∷ 98 ∷ 114 ∷ 209 ∷ 10 ∷ 22 ∷ 36 ∷ 52 ∷ 225 ∷ 37 ∷ 241 ∷ 23 ∷ 24 ∷ 25
    ∷ 26 ∷ 38 ∷ 39 ∷ 40 ∷ 41 ∷ 42 ∷ 53 ∷ 54 ∷ 55 ∷ 56 ∷ 57 ∷ 58 ∷ 67 ∷ 68 ∷ 69 ∷ 70 ∷ 71 ∷ 72 ∷ 73
    ∷ 74 ∷ 83 ∷ 84 ∷ 85 ∷ 86 ∷ 87 ∷ 88 ∷ 89 ∷ 90 ∷ 99 ∷ 100 ∷ 101 ∷ 102 ∷ 103 ∷ 104 ∷ 105 ∷ 106
    ∷ 115 ∷ 116 ∷ 117 ∷ 118 ∷ 119 ∷ 120 ∷ 121 ∷ 122 ∷ 130 ∷ 131 ∷ 132 ∷ 133 ∷ 134 ∷ 135 ∷ 136 ∷ 137
    ∷ 138 ∷ 146 ∷ 147 ∷ 148 ∷ 149 ∷ 150 ∷ 151 ∷ 152 ∷ 153 ∷ 154 ∷ 162 ∷ 163 ∷ 164 ∷ 165 ∷ 166 ∷ 167
    ∷ 168 ∷ 169 ∷ 170 ∷ 178 ∷ 179 ∷ 180 ∷ 181 ∷ 182 ∷ 183 ∷ 184 ∷ 185 ∷ 186 ∷ 194 ∷ 195 ∷ 196 ∷ 197
    ∷ 198 ∷ 199 ∷ 200 ∷ 201 ∷ 202 ∷ 210 ∷ 211 ∷ 212 ∷ 213 ∷ 214 ∷ 215 ∷ 216 ∷ 217 ∷ 218 ∷ 226 ∷ 227
    ∷ 228 ∷ 229 ∷ 230 ∷ 231 ∷ 232 ∷ 233 ∷ 234 ∷ 242 ∷ 243 ∷ 244 ∷ 245 ∷ 246 ∷ 247 ∷ 248 ∷ 249 ∷ 250
    ∷ []

-- `((p[0] << 8) | p[1]) == 0xffxx`
abbrev pub is_marker : ℕ → ℕ → ℕ → Bool
is_marker marker a b = a == 255 && b == marker

-- The loop of `is_huffman` over the memory from `buf` on, with the number of the round; none where it
-- would read behind the memory.
unfoldable pub is_huffman_from : ℕ → Bytes → Option Bool
is_huffman_from i [] = none
is_huffman_from i (a ∷ []) = none
is_huffman_from i (a ∷ b ∷ s) =
    let rest = is_huffman_from (suc i) (b ∷ s) in
    if is_marker 218 a b
    then some false
    else (if ltb 2048 i then some false else (if is_marker 196 a b then some true else rest))

unfoldable pub is_huffman : Bytes → Option Bool
is_huffman m = is_huffman_from 0 m

abbrev pub one_more : Option ℕ → Option ℕ
one_more none = none
one_more (some k) = some (suc k)

-- The loop that looks for SOF0: how far it gets, at most `n`; it reads two bytes before it compares
-- with the limit.
unfoldable pub find_sof : ℕ → Bytes → Option ℕ
find_sof n [] = none
find_sof n (a ∷ []) = none
find_sof zero (a ∷ b ∷ s) = some 0
find_sof (suc n) (a ∷ b ∷ s) =
    let rest = one_more (find_sof n (b ∷ s)) in if is_marker 192 a b then some 0 else rest

-- The picture has the bytes `p`, and is cut at `k`.
unfoldable pub insert_dht : ℕ → Bytes → Option ℕ → Option Bytes
insert_dht size m none = none
insert_dht size m (some k) =
    if leb size k then some [] else some (take k m ++ dht_data ++ drop k (take size m))

unfoldable pub copy_with : ℕ → Bytes → Option Bool → Option Bytes
copy_with size m none = none
copy_with size m (some true) = some (take size m)
copy_with size m (some false) = insert_dht size m (find_sof size m)

-- What `memcpy_picture` writes to `out`, for a picture of `size` bytes at the front of the memory `m`.
unfoldable pub memcpy_picture : ℕ → Bytes → Option Bytes
memcpy_picture size m = copy_with size m (is_huffman m)
