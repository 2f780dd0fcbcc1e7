-- ===== src/Commands.antt =====
-- cmd/crosshub/cert.go: the commands that make the certificates of a network.
mod Keys
mod Certs
mod Chain
mod Accepted
mod Tests
