-- ===== src/BinStream/Stream/Endian.antt =====
-- src/io/BinStream/BinStreamBase.cpp: the byte order of a stream.
use ctrlr_fx.Prelude.{Bool, true, false, ◌≡◌, refl}
use ctrlr_fx.BufCodec.Bytes.{host_bytes}
use ctrlr_fx.BinStream.Stream.{
  BinStream, ByteOrder, little_endian, big_endian, byte_order, set_byte_order, host_byte_order,
  swapped_byte_order,
}

abbrev pub opposite : ByteOrder → ByteOrder
opposite little_endian = big_endian
opposite big_endian = little_endian

-- The order that a stream reports is the opposite of the one it was set to, on every host.
pub byte_order-set_byte_order :
    {D : Type 0} (big : Bool) (s : BinStream D) (order : ByteOrder)
    → byte_order big (set_byte_order big s order) ≡ opposite order
unfolding byte_order set_byte_order host_byte_order swapped_byte_order host_bytes
byte_order-set_byte_order false s little_endian = refl
byte_order-set_byte_order false s big_endian = refl
byte_order-set_byte_order true s little_endian = refl
byte_order-set_byte_order true s big_endian = refl
