-- ===== src/Transport/Header/Roundtrip.antt =====
-- The header that `MakeFragDataHeader` writes is the one that `GetFragDataHeader` reads.
use dmsfwk.Prelude.{
  ℕ, ◌/◌, ◌%◌, ◌^◌, ◌<◌, ◌≡◌, refl, some, List, [], ◌∷◌, ◌++◌, length, replicate, arith,
}
use dmsfwk.Buffer.Laws.{store_one, store_two, store_four}
use dmsfwk.Transport.Header.{SessionDataHeader, make_frag_data_header, get_frag_data_header}

-- The fields hold what their widths allow.
pub record IsSized (h : SessionDataHeader) : Type 0 where
  pub version_fits : h.version < 2 ^ 16
  pub frag_flag_fits : h.frag_flag < 256
  pub data_type_fits : h.data_type < 2 ^ 32
  pub seq_num_fits : h.seq_num < 2 ^ 32
  pub total_len_fits : h.total_len < 2 ^ 32
  pub sub_seq_fits : h.sub_seq < 2 ^ 16
  pub data_len_fits : h.data_len < 2 ^ 32

abbrev two : ℕ → List ℕ
two v = v % 256 ∷ v / 256 % 256 ∷ []

abbrev four : ℕ → List ℕ
four v = v % 256 ∷ v / 256 % 256 ∷ v / 256 / 256 % 256 ∷ v / 256 / 256 / 256 % 256 ∷ []

pub header_bytes : SessionDataHeader → List ℕ
header_bytes h =
    (3 ∷ 233 ∷ 0 ∷ 2 ∷ two h.version)
    ++ ((3 ∷ 234 ∷ 0 ∷ 1 ∷ h.frag_flag % 256 ∷ [])
        ++ ((3 ∷ 235 ∷ 0 ∷ 4 ∷ four h.data_type)
            ++ ((3 ∷ 236 ∷ 0 ∷ 4 ∷ four h.seq_num)
                ++ ((3 ∷ 237 ∷ 0 ∷ 4 ∷ four h.total_len)
                    ++ ((3 ∷ 238 ∷ 0 ∷ 2 ∷ two h.sub_seq)
                        ++ (3 ∷ 239 ∷ 0 ∷ 4 ∷ four h.data_len))))))

pub length-header_bytes : (h : SessionDataHeader) → length (header_bytes h) ≡ 49
unfolding header_bytes
length-header_bytes h = refl

pub make_frag_data_header_lem :
    (h : SessionDataHeader) (rest : List ℕ)
    → make_frag_data_header h (replicate 49 0 ++ rest) 49 ≡ header_bytes h ++ rest
unfolding make_frag_data_header header_bytes
make_frag_data_header_lem h rest = refl

pub get_frag_data_header_lem :
    (h g : SessionDataHeader) (rest : List ℕ)
    → IsSized h
    → get_frag_data_header (header_bytes h ++ rest) g ≡ some h
unfolding get_frag_data_header header_bytes
get_frag_data_header_lem h g rest s = ground (
  arith,
  store_two g.version h.version s.version_fits,
  store_one g.frag_flag h.frag_flag s.frag_flag_fits,
  store_four g.data_type h.data_type s.data_type_fits,
  store_four g.seq_num h.seq_num s.seq_num_fits,
  store_four g.total_len h.total_len s.total_len_fits,
  store_two g.sub_seq h.sub_seq s.sub_seq_fits,
  store_four g.data_len h.data_len s.data_len_fits,
)

-- The header that `MakeFragDataHeader` writes at the front of an array of zeros is the one that
-- `GetFragDataHeader` reads, whatever follows its 49 bytes and whatever the stack holds, if its fields
-- fit their widths.
pub get_frag_data_header-make_frag_data_header :
    (h g : SessionDataHeader) (rest : List ℕ)
    → IsSized h
    → get_frag_data_header (make_frag_data_header h (replicate 49 0 ++ rest) 49) g ≡ some h
get_frag_data_header-make_frag_data_header h g rest s =
    rw (make_frag_data_header_lem h rest, get_frag_data_header_lem h g rest s)
