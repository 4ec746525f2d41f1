-- ===== src/Storage/Sizes.antt =====
-- What `GetCapacity` reports, for a device that answers the way SCSI defines: the numbers with their
-- highest byte first, then a status wrapper.
use usb_lib.Prelude.{
  ℕ, ◌+◌, ◌%◌, ◌<◌, ◌≡◌, refl, [], ◌∷◌, ◌++◌, Option, none, some, length, take, drop, arith, ◌==◌,
  ◌/◌,
}
use usb_lib.Words.{Bytes, IsU32, IsU64, image32, load32, htonl}
use usb_lib.Storage.Capacity.{
  sizeof_cbw, csw_signature, send_cbw, transfer_data, receive_csw, shifted32, shift_in,
  parse_capacity_10, parse_capacity_16, get_capacity,
}

-- The answer to READ CAPACITY (10).
unfoldable pub reply_10 : ℕ → ℕ → Bytes
reply_10 last size = image32 (htonl last) ++ image32 (htonl size)

-- The answer to READ CAPACITY (16), whose last twenty bytes are of no use here.
unfoldable pub reply_16 : ℕ → ℕ → Bytes → Bytes
reply_16 last size more =
    image32 (htonl (last / 4294967296))
    ++ (image32 (htonl (last % 4294967296)) ++ (image32 (htonl size) ++ more))

-- The status wrapper.
unfoldable pub status_wrapper : ℕ → ℕ → Bytes → Bytes
status_wrapper tag residue status =
    image32 csw_signature ++ (image32 tag ++ (image32 residue ++ status))

shifted32-htonl : (w : ℕ) (rest : Bytes) → IsU32 w → shifted32 (image32 (htonl w) ++ rest) ≡ w
unfolding shifted32 image32 htonl
shifted32-htonl w rest h = omega arith

shift_in-htonl :
    (last size : ℕ) (more : Bytes)
    → IsU64 last
    → shift_in 0 (take 8 (reply_16 last size more)) ≡ last
unfolding shift_in reply_16 image32 htonl
shift_in-htonl last size more h = omega arith

receive_csw-status_wrapper :
    (tag residue s : ℕ)
    → IsU32 tag
    → receive_csw tag (some (status_wrapper tag residue (s ∷ []))) ≡ some s
unfolding receive_csw status_wrapper image32 load32
receive_csw-status_wrapper tag residue s h = ground arith

-- A device that answers READ CAPACITY (16) in 32 bytes with its last block (below 2^64 - 1) and its
-- block size, and then reports status `s` for the command, has one block more than the number of the
-- last; the call succeeds exactly when the status is 0, and has used one tag.
pub get_capacity-reply_16 :
    (tag total size last block residue s : ℕ) (more : Bytes) (sent : Option ℕ)
    (answer : Option Bytes)
    → IsU32 tag
    → last + 1 < 18446744073709551616
    → IsU32 block
    → length more ≡ 20
    → get_capacity tag total size (record {
      sent_16 = some sizeof_cbw;
      data_16 = some (reply_16 last block more);
      sent_10 = sent;
      data_10 = answer;
      status = some (status_wrapper tag residue (s ∷ []));
    })
      ≡ record {
        success = s == 0;
        next_tag = (tag + 1) % 4294967296;
        total_blocks = last + 1;
        block_size = block;
      }
unfolding get_capacity send_cbw transfer_data parse_capacity_16
get_capacity-reply_16 tag total size last block residue s more sent answer t l b len =
    let whole : length (reply_16 last block more) ≡ 32 =
      unfold reply_16 image32 in omega (arith, len) in
    let size_read : shifted32 (drop 8 (reply_16 last block more)) ≡ block =
      unfold reply_16 image32 in shifted32-htonl block more b in
    let fits : (last + 1) % 18446744073709551616 ≡ last + 1 = omega arith in
    rw
      (
        whole,
        receive_csw-status_wrapper tag residue s t,
        shift_in-htonl last block more (omega arith),
        size_read,
        fits,
      )
      refl

-- A device that fails READ CAPACITY (16) during its data, and answers READ CAPACITY (10) with its last
-- block and block size and with status `s` for that second command, has one block more than the number
-- of the last; the call succeeds exactly when the status is 0, and has used two tags.
pub get_capacity-reply_10 :
    (tag total size last block residue s : ℕ)
    → IsU32 last
    → IsU32 block
    → get_capacity tag total size (record {
      sent_16 = some sizeof_cbw;
      data_16 = none;
      sent_10 = some sizeof_cbw;
      data_10 = some (reply_10 last block);
      status = some (status_wrapper ((tag + 1) % 4294967296) residue (s ∷ []));
    })
      ≡ record {
        success = s == 0;
        next_tag = ((tag + 1) % 4294967296 + 1) % 4294967296;
        total_blocks = last + 1;
        block_size = block;
      }
unfolding get_capacity send_cbw transfer_data parse_capacity_10
get_capacity-reply_10 tag total size last block residue s l b =
    let whole : length (reply_10 last block) ≡ 8 = unfold reply_10 image32 in omega arith in
    let last_read : shifted32 (reply_10 last block) ≡ last =
      unfold reply_10 in shifted32-htonl last (image32 (htonl block)) l in
    let size_read : shifted32 (drop 4 (reply_10 last block)) ≡ block =
      unfold reply_10 image32 in shifted32-htonl block [] b in
    rw
      (
        whole,
        receive_csw-status_wrapper ((tag + 1) % 4294967296) residue s (omega arith),
        last_read,
        size_read,
      )
      refl
