-- ===== src/Memcache/Header/Wire.antt =====
-- A header as it goes over the network: the numbers' highest byte first.
use libevent_async.Prelude.{
  ℕ, ◌<◌, ◌^◌, ◌≡◌, refl, sym, ap, ◌∙◌, List, [], ◌++◌, arith, length, append-nil, take, drop,
  take-append_self, drop-append_self,
}
use libevent_async.Prelude.Bytes.{le_bytes, be_bytes, of_le-le_bytes, length-le_bytes}
use libevent_async.Prelude.Action.{pure}
use libevent_async.Prelude.Queue.{Reads-last}
use libevent_async.Libevent.{EvBuffer}
use libevent_async.Phosg.{Phosg}
use libevent_async.Buffer.Contract.{BufReads, BufWrites, add-Writes, remove-Reads}
use libevent_async.Memcache.Header.{
  CommandHeader, byteswap, memory, field, of_memory, add_header, remove_header,
}

-- Each field has as many bytes as its type.
pub record IsHeader (h : CommandHeader) : Type 0 where
  pub magic_fits : h.magic < 256
  pub opcode_fits : h.opcode < 256
  pub key_size_fits : h.key_size < 2 ^ 16
  pub extras_size_fits : h.extras_size < 256
  pub data_type_fits : h.data_type < 256
  pub status_fits : h.status < 2 ^ 16
  pub body_size_fits : h.body_size < 2 ^ 32
  pub opaque_fits : h.opaque_id < 2 ^ 32
  pub cas_fits : h.cas < 2 ^ 64

unfoldable pub wire : CommandHeader → List ℕ
wire h =
    le_bytes 1 h.magic
    ++ (le_bytes 1 h.opcode
        ++ (be_bytes 2 h.key_size
            ++ (le_bytes 1 h.extras_size
                ++ (le_bytes 1 h.data_type
                    ++ (be_bytes 2 h.status
                        ++ (be_bytes 4 h.body_size
                            ++ (be_bytes 4 h.opaque_id ++ be_bytes 8 h.cas)))))))

field_lem : (n v : ℕ) (rest : List ℕ) → v < 256 ^ n → field n (le_bytes n v ++ rest) ≡ (v, rest)
unfolding field
field_lem n v rest h =
    let first : take n (le_bytes n v ++ rest) ≡ le_bytes n v =
      ap (λ (k : ℕ). take k (le_bytes n v ++ rest)) (sym (length-le_bytes n v))
      ∙ take-append_self (le_bytes n v) rest in
    let second : drop n (le_bytes n v ++ rest) ≡ rest =
      ap (λ (k : ℕ). drop k (le_bytes n v ++ rest)) (sym (length-le_bytes n v))
      ∙ drop-append_self (le_bytes n v) rest in
    rw (first, second, of_le-le_bytes n v h)

of_memory-memory : (h : CommandHeader) → IsHeader h → of_memory (memory h) ≡ h
of_memory-memory h v =
    let last =
      ap (λ (l : List ℕ). field 8 l) (sym (append-nil (le_bytes 8 h.cas)))
      ∙ field_lem 8 h.cas [] (omega (arith, v.cas_fits)) in
    rw (
      field_lem 1 h.magic _ (omega (arith, v.magic_fits)),
      field_lem 1 h.opcode _ (omega (arith, v.opcode_fits)),
      field_lem 2 h.key_size _ (omega (arith, v.key_size_fits)),
      field_lem 1 h.extras_size _ (omega (arith, v.extras_size_fits)),
      field_lem 1 h.data_type _ (omega (arith, v.data_type_fits)),
      field_lem 2 h.status _ (omega (arith, v.status_fits)),
      field_lem 4 h.body_size _ (omega (arith, v.body_size_fits)),
      field_lem 4 h.opaque_id _ (omega (arith, v.opaque_fits)),
      last,
    )

length-memory : (h : CommandHeader) → length (memory h) ≡ 24
unfolding le_bytes
length-memory h = refl

module _ ⦃P : Phosg⦄ where
  pub byteswap-IsHeader : (h : CommandHeader) → IsHeader h → IsHeader (byteswap h)
  unfolding byteswap
  byteswap-IsHeader h v = record {
    magic_fits = v.magic_fits;
    opcode_fits = v.opcode_fits;
    key_size_fits = P.bswap-lt 2 h.key_size v.key_size_fits;
    extras_size_fits = v.extras_size_fits;
    data_type_fits = v.data_type_fits;
    status_fits = P.bswap-lt 2 h.status v.status_fits;
    body_size_fits = P.bswap-lt 4 h.body_size v.body_size_fits;
    opaque_fits = P.bswap-lt 4 h.opaque_id v.opaque_fits;
    cas_fits = P.bswap-lt 8 h.cas v.cas_fits;
  }

  pub byteswap_twice : (h : CommandHeader) → IsHeader h → byteswap (byteswap h) ≡ h
  unfolding byteswap
  byteswap_twice h v = rw (
    P.bswap_twice 2 h.key_size v.key_size_fits,
    P.bswap_twice 2 h.status v.status_fits,
    P.bswap_twice 4 h.body_size v.body_size_fits,
    P.bswap_twice 4 h.opaque_id v.opaque_fits,
    P.bswap_twice 8 h.cas v.cas_fits,
  )

  memory-byteswap : (h : CommandHeader) → IsHeader h → memory (byteswap h) ≡ wire h
  unfolding byteswap wire
  memory-byteswap h v = rw (
    P.le_bytes-bswap 2 h.key_size v.key_size_fits,
    P.le_bytes-bswap 2 h.status v.status_fits,
    P.le_bytes-bswap 4 h.body_size v.body_size_fits,
    P.le_bytes-bswap 4 h.opaque_id v.opaque_fits,
    P.le_bytes-bswap 8 h.cas v.cas_fits,
  )

  pub length-wire : (h : CommandHeader) → IsHeader h → length (wire h) ≡ 24
  length-wire h v = rw (← memory-byteswap h v) (length-memory (byteswap h))

  module _ ⦃E : EvBuffer⦄ where
    -- A header that is swapped and then added goes out in network order.
    pub add_header-Writes :
        (h : CommandHeader) → IsHeader h → BufWrites (add_header (byteswap h)) (wire h)
    unfolding add_header
    add_header-Writes h v = rw (← memory-byteswap h v) (add-Writes (memory (byteswap h)))

    pub remove_header-Reads :
        (h : CommandHeader) → IsHeader h → BufReads remove_header (wire h) (byteswap h)
    unfolding remove_header
    remove_header-Reads h v =
        let bytes = memory-byteswap h v in
        rw (← bytes) (
          Reads-last _ (remove-Reads 24 (memory (byteswap h)) (length-memory (byteswap h)))
            (ap pure (of_memory-memory (byteswap h) (byteswap-IsHeader h v))))
