-- ===== src/Examples.antt =====
-- Concrete runs of the code under the properties, and the stubs that they talk to.
mod Stub
mod Uris
mod Keys
mod Responses
mod Errors
mod Calls
mod Natives
mod Commands
mod Datasets
mod Accepted
mod Bound
mod Served
mod Recovery
mod Dns
mod Codec
mod Connections
