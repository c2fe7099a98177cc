-- ===== src/BinStream.antt =====
-- The binary streams: CtrlrFx/BinStreamBuf.h (BinStream/StreamBuf), CtrlrFx/MemBinStream.h
-- (BinStream/MemStream), and CtrlrFx/BinStream.h with CtrlrFx/BinStreamBase.h (BinStream/Stream).
pub mod StreamBuf
pub mod MemStream
pub mod Stream
pub mod DevStream
mod Tests
