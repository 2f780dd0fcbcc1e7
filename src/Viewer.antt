-- ===== src/Viewer.antt =====
-- chainview: the watcher of the Ethereum-like chain.
mod Logs
mod Stores
mod Window
mod Scanning
mod Messages
mod Relaying
mod Anchors
mod AnchorWords
mod Tests
