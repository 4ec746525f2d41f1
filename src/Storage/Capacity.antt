-- ===== src/Storage/Capacity.antt =====
-- `MassStorageDevice::GetCapacity` with `SendCBW`, `TransferData` and `ReceiveCSW`.
use usb_lib.Prelude.{
  ℕ, ◌+◌, ◌*◌, ◌%◌, [], ◌∷◌, ◌++◌, Bool, false, ◌&&◌, not, Option, none, some, ◌==◌, if◌then◌else◌,
  length, drop, take, get_or, replicate,
}
use usb_lib.Words.{Bytes, image32, load32}

pub record CommandBlockWrapper : Type 0 where
  pub signature : ℕ
  pub tag : ℕ
  pub data_transfer_length : ℕ
  pub flags : ℕ
  pub lun : ℕ
  pub cb_length : ℕ
  pub cb : Bytes

abbrev pub cbw_signature : ℕ
cbw_signature = 0x43425355

abbrev pub csw_signature : ℕ
csw_signature = 0x53425355

abbrev pub sizeof_cbw : ℕ
sizeof_cbw = 31

abbrev pub sizeof_csw : ℕ
sizeof_csw = 13

-- The packed struct in memory, as `SendCBW` passes it to the bulk transfer.
unfoldable pub image_cbw : CommandBlockWrapper → Bytes
image_cbw c =
    image32 c.signature
    ++ (image32 c.tag ++ (image32 c.data_transfer_length ++ (c.flags ∷ c.lun ∷ c.cb_length ∷ c.cb)))

unfoldable pub capacity_16_cbw : ℕ → CommandBlockWrapper
capacity_16_cbw tag = record {
  signature = cbw_signature;
  tag = tag;
  data_transfer_length = 32;
  flags = 0x80;
  lun = 0;
  cb_length = 16;
  cb = 0x9E ∷ 0x10 ∷ replicate 14 0;
}

-- The second attempt reuses the wrapper.
unfoldable pub capacity_10_cbw : ℕ → CommandBlockWrapper
unfolding capacity_16_cbw
capacity_10_cbw tag = record (capacity_16_cbw tag) {
  data_transfer_length = 8;
  cb_length = 10;
  cb = 0x25 ∷ replicate 15 0;
}

-- A transfer to the device: `none` if it failed, else how much it moved. `SendCBW` wants all of it.
unfoldable pub send_cbw : Option ℕ → Bool
send_cbw none = false
send_cbw (some n) = n == sizeof_cbw

-- A transfer from the device: `none` if it failed, else the bytes that it moved. `TransferData` wants
-- `len` of them.
unfoldable pub transfer_data : ℕ → Option Bytes → Option Bytes
transfer_data len none = none
transfer_data len (some bs) = if length bs == len then some bs else none

-- `ReceiveCSW`: the status byte of a whole wrapper with the right signature and tag.
unfoldable pub receive_csw : ℕ → Option Bytes → Option ℕ
receive_csw tag none = none
receive_csw tag (some bs) =
    if length bs == sizeof_csw && load32 bs == csw_signature && load32 (drop 4 bs) == tag
    then some (get_or bs 12 0)
    else none

-- Four bytes, the highest first, by shifts.
unfoldable pub shifted32 : Bytes → ℕ
shifted32 bs =
    get_or bs 0 0 * 16777216 + get_or bs 1 0 * 65536 + get_or bs 2 0 * 256 + get_or bs 3 0

-- The loop `total = (total << 8) | byte` over a uint64_t; the shift leaves the low byte free.
unfoldable pub shift_in : ℕ → Bytes → ℕ
shift_in total [] = total
shift_in total (b ∷ bs) = shift_in (total * 256 % 18446744073709551616 + b) bs

pub record Capacity : Type 0 where
  pub total_blocks : ℕ
  pub block_size : ℕ

unfoldable pub parse_capacity_10 : Bytes → Capacity
unfolding shifted32
parse_capacity_10 bs = record {
  total_blocks = shifted32 bs + 1;
  block_size = shifted32 (drop 4 bs);
}

unfoldable pub parse_capacity_16 : Bytes → Capacity
unfolding shifted32 shift_in
parse_capacity_16 bs = record {
  total_blocks = (shift_in 0 (take 8 bs) + 1) % 18446744073709551616;
  block_size = shifted32 (drop 8 bs);
}

-- The transfers in order: the command and the data of READ CAPACITY (16), the same of READ CAPACITY
-- (10), and the status.
pub record CapacityCalls : Type 0 where
  pub sent_16 : Option ℕ
  pub data_16 : Option Bytes
  pub sent_10 : Option ℕ
  pub data_10 : Option Bytes
  pub status : Option Bytes

pub record CapacityResult : Type 0 where
  pub success : Bool
  pub next_tag : ℕ
  pub total_blocks : ℕ
  pub block_size : ℕ

abbrev tag_after : ℕ → ℕ
tag_after tag = (tag + 1) % 4294967296

-- The end of `GetCapacity`: the status wrapper for the last command's tag.
finish : ℕ → Capacity → Option Bytes → CapacityResult
finish tag c status = record {
  success = elim (receive_csw tag status) [ none ↦ false | some s ↦ s == 0 ];
  next_tag = tag_after tag;
  total_blocks = c.total_blocks;
  block_size = c.block_size;
}

give_up : ℕ → ℕ → ℕ → CapacityResult
give_up tag total size = record {
  success = false;
  next_tag = tag;
  total_blocks = total;
  block_size = size;
}

-- From the counter and the values that the two references hold before.
unfoldable pub get_capacity : ℕ → ℕ → ℕ → CapacityCalls → CapacityResult
unfolding finish give_up
get_capacity tag total size calls =
    let second =
      if not (send_cbw calls.sent_10)
      then give_up (tag_after (tag_after tag)) total size
      else elim (transfer_data 8 calls.data_10) [
        | none ↦ give_up (tag_after (tag_after tag)) total size
        | some bs ↦ finish (tag_after tag) (parse_capacity_10 bs) calls.status
      ] in
    if not (send_cbw calls.sent_16)
    then give_up (tag_after tag) total size
    else elim (transfer_data 32 calls.data_16) [
      | none ↦ second
      | some bs ↦ finish tag (parse_capacity_16 bs) calls.status
    ]
