-- ===== src/Tools.antt =====
-- The programs of the command line: main-consumer.cc, main-producer.cc, main-ctl.cc, main-server.cc.
-- What boost::program_options makes of the arguments is their input.
pub mod Lines
pub mod Named
pub mod Consumer
pub mod Consuming
pub mod Producer
pub mod Within
pub mod Orders
pub mod Producing
pub mod Ctl
pub mod Serve
pub mod Receiving
pub mod EndToEnd
pub mod Creating
